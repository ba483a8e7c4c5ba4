-- ===== src/Lib.antt =====
-- Verification of the Zircon dumper, a tool that reads a game's memory through several kinds of
-- sources, finds its reflection data by byte patterns, packs and uploads what it dumps, writes it
-- out for other tools, and compares two dumps.
--
-- Memory (src/core/include/core/MemorySource.h, src/core/src/MemorySource.cpp,
-- src/core/src/CachedMemorySource.cpp): `Memory.Source.Source` is the interface IMemorySource over
-- a state of its own. A read returns the bytes that it got, so their number is the count that the
-- code returns. `Memory.Cache` is CachedMemorySource, with `tags_`, `valid_` and `data_` as
-- functions of the slot, and `Memory.CString` and `Memory.Lookup` are ReadCString and the lookups
-- by name and by address. The operating system behind a source is a parameter: a source "shows" a
-- view when each read gives the longest readable prefix of what the view has there. A read has as
-- many rounds as it has bytes, since a round copies a byte or ends the loop.
--
-- Pattern (src/core/include/core/PatternScanner.h, src/core/src/PatternScanner.cpp): `Pattern` is
-- the pattern with Parse, ToString, FromBytesAndMask and MatchesAt, and `Pattern.Scan` is the
-- scanner over a source of Memory: BuildRanges, Scan, ScanFirst and ScanUnique. The loops over a
-- range and over a chunk have as many rounds as these have bytes, since a round moves on by a byte
-- at least.
--
-- Gzip (src/zdex/src/Gzip.cpp): `Gzip.Bits` is BitWriter and BitReader, `Gzip.Codes` is
-- LiteralCode and the tables of lengths and distances, `Gzip.Deflate` is DeflateBlock with its
-- hash chains, `Gzip.Huffman` is the class Huffman, Decode and BuildFixedTables, `Gzip.Inflate` is
-- InflateBlockBody, and `Gzip.Crc` is Crc32. `Gzip.Bits.Stream` and `Gzip.Bits.Fill` describe the
-- writer and the reader by the single digits that are written and that are still to be read, and
-- `Gzip.Inflate.Block` describes a block by literals and repeats. The words of 64 and 32 bits keep
-- their wrap-around. The search of DeflateBlock may read one byte behind the data; what stands
-- there is a parameter. BitWriter::Bits has as many rounds as digits are held, BitReader::Bits one
-- more than the digits that are needed, Decode the 15 of the source, the walk along a chain its
-- 128, DeflateBlock as many as there are bytes, and InflateBlockBody one more than there are
-- literals and repeats.
--
-- `Gzip.Dynamic` is InflateDynamic, `Gzip.Blocks` is Inflate, and `Gzip.Member` is GzipCompress,
-- LooksGzipped and GzipDecompress, where `past` is the byte behind the input. InflateDynamic
-- appends to the list of the lengths that are filled, where the code writes into a table that has
-- its full size from the start; its loop has as many rounds as there are lengths to fill. Inflate
-- has one round more than its input has digits, for its own loop and for that of a block, since
-- every round reads a digit. The loop over slabs has one round more than there are bytes.
--
-- Sha256 (src/zdex/src/Sha256.cpp): `Sha256` is the struct Hasher with Block, Add and Finish, and
-- Sha256Hex. Sha256File is a function of what the reads of the file give. Words of 32 bits and the
-- count of 64 bits wrap around. Add has as many rounds as there are bytes, and the zeros of Finish
-- 64, since the buffer has 64 places.
--
-- Json (src/zdex/src/Json.cpp): `Json` is the value and Reader::String with Skip and AppendUtf8,
-- `Json.Values` is the rest of Reader and ParseJson, `Json.Escape` is JsonEscape, and `Json.Access`
-- is the lookups of JsonValue, over what strtod and strtoll give as parameters. A function of
-- Reader takes the bytes from `pos_` on and returns those that it leaves. A number is kept as the
-- text that strtod is given, and the fields of an object in the order of their first insertion.
-- Value has two rounds for each byte and one more, for itself and the loops inside it, and String
-- one more than there are bytes.
--
-- PeImage (src/core/src/PeImage.cpp, src/core/src/StaticMemorySource.cpp): `PeImage` is the image
-- with SectionForRva and ReadRva, `PeImage.Parse` is FromBuffer with Parse and ParseExports, and
-- `PeImage.Static` is the source over an image: its regions and its reads. Sums of addresses in an
-- image wrap at 2 ^ 32. ReadRva has as many rounds as the buffer has bytes, since a round that goes
-- on adds one.
--
-- Ir (src/ir/include/ir/Model.h, src/ir/src/Model.cpp): `Ir` is the model of a dump by the fields
-- that the parts below read, with operator== of a type, FindPackage and the totals, and `Ir.Kinds`
-- is the kinds of types with their names. Numbers with a sign are integers of `Prelude.Int`.
--
-- Emit (src/emit/src/Util.cpp, src/emit/src/Usmap.cpp): `Emit.Util` is the identifiers, the names of
-- paths and CppPrefixFor, whose statics, the map of the classes and the address of its dump, are a
-- state that calls pass on. It walks along the super classes in three rounds more than the map has
-- classes, since a path is visited once.
-- `Emit.Usmap` is the name table and WriteType, with the name table, the bytes and the warnings in one
-- state, and `Emit.Usmap.File` is EmitUsmap over WriteFile, which is a parameter and
-- gives an error or none. `Emit.Usmap.Read` is a reader of the format that does not look at the
-- writer, and `Emit.Usmap.Classes`, `Emit.Usmap.Meaning`, `Emit.Usmap.Entries` and
-- `Emit.Usmap.Structs` say what it is to find of a type, a name, an enum and a struct: the codes of
-- the types are given there by the engine's names of the classes of properties, apart from MapKind
-- and MapRaw. The sections of enums and structs share the names, as in the code; the warnings are
-- values with what their texts hold.
--
-- Diff (src/diff/src/Diff.cpp, src/diff/include/diff/Diff.h): `Diff` is the kinds of changes, the
-- report and Differ::Emit, `Diff.Members` is DiffProperties and `Diff.Functions` is DiffFunctions and
-- DiffEnum, over the differences and counts of `Diff.Notes`, `Diff.Index` is Index and the orders, and
-- `Diff.Whole` is Diff. A map by name or path is a list of its entries; the loops over a set of
-- packages run in the order of their insertion, and the sorts are insertion sorts, which are stable.
-- A number is written with at most 20 digits, or 16 to the base 16, as many as 64 bits need.
--
-- Engine (src/engine/src/ValueWriter.cpp): `Engine.Writer` is Trim, ParseSigned, ParseBool, FitsIn and
-- WriteInteger over a source of `Memory.Source`. The casts between words and numbers with a sign are
-- written out, and what comes of the negation of the smallest number, which the language leaves
-- undefined, is a parameter.
--
-- Not modelled: FromFile, GzipFile, GunzipFile, EnsureDirectory and WriteFile, which read and write
-- files, ExecutableRanges, the sources over processes and minidumps, the engines' layouts and the
-- rest of the value writer, the linter and the JSON form of dumps, the texts of a report, the other
-- emitters, the network, the plugins and the user interfaces.
pub mod Prelude
pub mod Memory
pub mod Pattern
pub mod Gzip
pub mod Sha256
pub mod Json
pub mod PeImage
pub mod Ir
pub mod Emit
pub mod Diff
pub mod Engine
