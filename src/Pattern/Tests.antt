-- ===== src/Pattern/Tests.antt =====
-- Runs of the patterns and of the scanner, and the theorems at concrete inputs.
use Prim.Native.Char.{code}
use Prim.Native.String.{String}
use zircon_dumper.Prelude.{
  ℕ, ◌≡◌, refl, true, false, none, some, Option, List, [], ◌∷◌, arith, ◌==◌, if◌then◌else◌,
}
use zircon_dumper.Prelude.Preds.{Bytes, All}
use zircon_dumper.Prelude.Result.{ok, err}
use zircon_dumper.Memory.Source.{Source, Shows, prefix_read}
use zircon_dumper.Memory.Lookup.{RegionInfo}
use zircon_dumper.Pattern.{
  Pattern, parse, parse_loop, hex_byte, hex_nibble, to_string, matches_at, only_wildcards,
  truncated_byte, from_bytes_and_mask,
}
use zircon_dumper.Pattern.Text.{IsParsed, parse-to_string}
use zircon_dumper.Pattern.Made.{parse-IsParsed, IsParsed-IsPattern}
use zircon_dumper.Pattern.Scan.{
  ScanOptions, build_ranges, scan, scan_unique, only_one, scan_ranges, scan_range, scan_chunk,
  memchr,
}
use zircon_dumper.Pattern.Scan.Chunk.{IsPattern}
use zircon_dumper.Pattern.Scan.Range.{IsReadable}
use zircon_dumper.Pattern.Scan.Unique.{all_hits, scan-all_hits, scan_unique_lem}

-- Code points; every literal below is ASCII.
abbrev codes : String → Bytes
codes String.[] = []
codes (String.◌∷◌ c s) = code c ∷ codes s

abbrev pattern : Pattern
pattern = record { bytes = 0x48 ∷ 0 ∷ 5 ∷ []; mask = 0xff ∷ 0 ∷ 0xff ∷ []; first_fixed = 0 }

parse_text : parse (codes "48 ? 05") ≡ ok pattern
unfolding parse parse_loop hex_byte hex_nibble
parse_text = refl

parse_errors :
    (parse (codes "?? ?") ≡ err only_wildcards) × (parse (codes "48 0") ≡ err truncated_byte)
unfolding parse parse_loop hex_byte hex_nibble
parse_errors = (refl, refl)

to_string-pattern : to_string pattern ≡ codes "48 ?? 05"
unfolding to_string
to_string-pattern = refl

mask_pattern : from_bytes_and_mask (some (0x48 ∷ 0 ∷ 5 ∷ [])) (codes "x?x") ≡ ok pattern
unfolding from_bytes_and_mask
mask_pattern = refl

parse-IsParsed_example : IsParsed pattern
parse-IsParsed_example = parse-IsParsed (codes "48 ? 05") parse_text

parse-to_string_example : parse (to_string pattern) ≡ ok pattern
parse-to_string_example = parse-to_string pattern parse-IsParsed_example

-- The target has the bytes 48 1 5 48 2 5 7 from address 100 on.
abbrev cells : ℕ → Option ℕ
cells x =
    if x == 100
    then some 0x48
    else if x == 101
    then some 1
    else if x == 102
    then some 5
    else if x == 103
    then some 0x48
    else if x == 104
    then some 2
    else if x == 105
    then some 5
    else if x == 106
    then some 7
    else none

abbrev target : Source (Unit {0})
target = record {
  read = λ s a n. prefix_read cells a n;
  write = λ s a bytes. (s, false);
  enable_writes = λ s enable. (s, false);
  invalidate = λ s. s;
  rescan_modules = λ s. s;
  live_objects = λ s. true;
}

abbrev regions : List RegionInfo
regions = record { base = 100; size = 7; protect = 5; is_image = true } ∷ []

abbrev options : ScanOptions
options = record { target = []; executable_only = true; whole_process = true; max_results = 0 }

ranges_are : build_ranges [] regions options ≡ record { base = 100; size = 7 } ∷ []
unfolding build_ranges
ranges_are = refl

ranges-IsReadable : All (IsReadable cells) (build_ranges [] regions options)
unfolding build_ranges prefix_read
ranges-IsReadable = (record { is_address = omega arith; whole = refl }, tt)

target-Shows : Shows target tt cells
target-Shows a n u = refl

pattern-IsPattern : IsPattern pattern
pattern-IsPattern = (IsParsed-IsPattern pattern parse-IsParsed_example).0

scan_run : scan target tt [] regions pattern options ≡ 100 ∷ 103 ∷ []
unfolding scan scan_ranges scan_range scan_chunk memchr matches_at build_ranges prefix_read
scan_run = refl

scan-all_hits_example :
    scan target tt [] regions pattern options
    ≡ all_hits pattern cells (build_ranges [] regions options)
scan-all_hits_example =
    scan-all_hits target tt [] regions pattern options cells target-Shows pattern-IsPattern
      (omega arith) refl ranges-IsReadable

scan_unique_example :
    scan_unique target tt [] regions pattern options
    ≡ only_one (all_hits pattern cells (build_ranges [] regions options))
scan_unique_example =
    scan_unique_lem target tt [] regions pattern options cells target-Shows pattern-IsPattern
      (omega arith) ranges-IsReadable
