-- ===== src/Emit/Usmap/Whole.antt =====
-- The whole file of EmitUsmap in src/emit/src/Usmap.cpp, as a reader of the format sees it.
use zircon_dumper.Prelude.{
  Bool, true, ◌+◌, ◌==◌, Option-cases, ℕ, ◌-◌, ◌^◌, ◌<◌, ◌≡◌, refl, sym, ap, ◌∙◌, subst, not, ◌&&◌,
  Option, none, some, List, [], ◌∷◌, ◌++◌, append-nil, if◌then◌else◌, length, arith, Bool-cases,
  inl, inr,
}
use zircon_dumper.Prelude.Preds.{Bytes}
use zircon_dumper.Prelude.Text.{lookup}
use zircon_dumper.Ir.{Package, Dump}
use zircon_dumper.Emit.Usmap.{u16, u32}
use zircon_dumper.Emit.Usmap.Entries.{EnumView, read_enum, Items-Writes}
use zircon_dumper.Emit.Usmap.File.{
  Section, included, enum_section, struct_section, name_bytes, body_bytes, k_magic, file_bytes,
  Emitted, refused, not_written, file, written_to, EmitOptions, usmap_path, usmap_bytes, emit_usmap,
}
use zircon_dumper.Emit.Usmap.Read.{
  Parser, pure, bind, Reads, Reads-bind, Reads-end, Reads-u8, Reads-u16, Reads-u32, read_u8,
  read_u16, read_u32, read_many,
}
use zircon_dumper.Emit.Usmap.Structs.{StructView, read_struct}
use zircon_dumper.Emit.Usmap.Table.{IsTable}
use zircon_dumper.Emit.Usmap.Trip.{
  all_enum_views, all_struct_views, Grows, Grows-Good, all_enums-Grows, all_structs-Grows,
  read_entry, Reads-names,
}

abbrev pub TypesView : Type 0
TypesView = List EnumView × List StructView

unfoldable pub read_types : List Bytes → Parser TypesView
read_types names = bind read_u32 (λ n. bind (read_many n (read_enum names)) (λ enums.
    bind read_u32 (λ m. bind (read_many m (read_struct names)) (λ structs. pure (enums, structs)))))

unfoldable pub read_body : Parser TypesView
read_body = bind read_u32 (λ n. bind (read_many n read_entry) read_types)

-- The header in front of the body, and the types in it.
pub record FileView : Type 0 where
  pub magic : ℕ
  pub version : ℕ
  pub compression : ℕ
  pub compressed_size : ℕ
  pub size : ℕ
  pub types : TypesView

unfoldable pub read_file : Parser FileView
read_file = bind read_u16 (λ magic. bind read_u8 (λ version. bind read_u8 (λ compression.
    bind read_u32 (λ compressed_size. bind read_u32 (λ size. bind read_body (λ types. pure (record {
      magic = magic;
      version = version;
      compression = compression;
      compressed_size = compressed_size;
      size = size;
      types = types;
    })))))))

-- The format has room for what the packages hold.
pub record Fits (packages : List Package) : Type 0 where
  pub names_fit : length (struct_section packages).emit.names < 2 ^ 32 - 1
  pub enums_fit : (enum_section packages).count < 2 ^ 32
  pub structs_fit : (struct_section packages).count < 2 ^ 32
  pub body_fits : length (body_bytes (enum_section packages) (struct_section packages)) < 2 ^ 32

empty-IsTable : IsTable [] []
unfolding lookup
empty-IsTable = record { short = tt; places = λ key id found few. absurd (ground (arith, found)) }

enums_grown :
    (packages : List Package)
    → Grows read_enum
        (all_enum_views packages)
        (record {
          emit = record { out = []; names = []; index = []; warnings = [] };
          seen = [];
          count = 0;
        })
        (enum_section packages)
unfolding enum_section
enums_grown packages =
    all_enums-Grows packages
      (record {
        emit = record { out = []; names = []; index = []; warnings = [] };
        seen = [];
        count = 0;
      })
      empty-IsTable

-- Where the section of the structs starts.
abbrev structs_start : List Package → Section
structs_start packages =
    let s = enum_section packages in record s { emit = record (s.emit) { out = [] }; count = 0 }

structs_grown :
    (packages : List Package)
    → Grows read_struct
        (all_struct_views packages)
        (structs_start packages)
        (struct_section packages)
unfolding struct_section
structs_grown packages =
    all_structs-Grows packages (structs_start packages)
      (Grows-Good (enums_grown packages) empty-IsTable)

-- A count and as many values.
Reads-counted :
    {A B : Type 0} (p : Parser A) (k : List A → Parser B) (xs : List A) (b : B) (n : ℕ)
    (bytes more : Bytes)
    → n < 2 ^ 32
    → n ≡ length xs
    → Reads (read_many (length xs) p) xs bytes
    → Reads (k xs) b more
    → Reads (bind read_u32 (λ m. bind (read_many m p) k)) b (u32 n ++ (bytes ++ more))
Reads-counted p k xs b n bytes more lt size listed rest =
    Reads-bind read_u32 (λ m. bind (read_many m p) k) n b (u32 n) (bytes ++ more) (Reads-u32 n lt)
      (Reads-bind (read_many n p) k xs b bytes more
        (subst (λ (m : ℕ). Reads (read_many m p) xs bytes) (sym size) listed) rest)

Reads-types :
    (packages : List Package)
    → Fits packages
    → Reads
        (read_types (struct_section packages).emit.names)
        (all_enum_views packages, all_struct_views packages)
        (u32 (enum_section packages).count
          ++ ((enum_section packages).emit.out
              ++ (u32 (struct_section packages).count ++ (struct_section packages).emit.out)))
unfolding read_types
Reads-types packages fits =
    let es : Section = enum_section packages in
    let ss : Section = struct_section packages in
    let names : List Bytes = ss.emit.names in
    let enums = enums_grown packages in
    let structs = structs_grown packages in
    let enums_written = Items-Writes enums.items empty-IsTable in
    let structs_written = Items-Writes structs.items (Grows-Good enums empty-IsTable) in
    let enum_values : Reads (read_many (length (all_enum_views packages)) (read_enum names))
        (all_enum_views packages) es.emit.out =
      subst
        (λ (bytes : Bytes).
          Reads (read_many (length (all_enum_views packages)) (read_enum names))
            (all_enum_views packages) bytes)
        (sym enums_written.out_is)
        (enums_written.reads names structs_written.extends fits.names_fit) in
    let struct_values : Reads (read_many (length (all_struct_views packages)) (read_struct names))
        (all_struct_views packages) ss.emit.out =
      subst
        (λ (bytes : Bytes).
          Reads (read_many (length (all_struct_views packages)) (read_struct names))
            (all_struct_views packages) bytes)
        (sym structs_written.out_is)
        (structs_written.reads names ([], sym (append-nil names)) fits.names_fit) in
    let counted_enums : es.count ≡ length (all_enum_views packages) =
      omega (arith, enums.counted) in
    let counted_structs : ss.count ≡ length (all_struct_views packages) =
      omega (arith, structs.counted) in
    Reads-counted (read_enum names)
      (λ vs. bind read_u32 (λ m. bind (read_many m (read_struct names)) (λ ss'. pure (vs, ss'))))
      (all_enum_views packages) (all_enum_views packages, all_struct_views packages) es.count
      es.emit.out (u32 ss.count ++ ss.emit.out) fits.enums_fit counted_enums enum_values
      (Reads-bind read_u32
        (λ m. bind (read_many m (read_struct names)) (λ ss'. pure (all_enum_views packages, ss')))
        ss.count (all_enum_views packages, all_struct_views packages) (u32 ss.count) ss.emit.out
        (Reads-u32 ss.count fits.structs_fit)
        (Reads-end (read_many ss.count (read_struct names)) (λ ss'. (all_enum_views packages, ss'))
          (all_struct_views packages) ss.emit.out
          (subst
            (λ (m : ℕ).
              Reads (read_many m (read_struct names)) (all_struct_views packages) ss.emit.out)
            (sym counted_structs) struct_values)))

Reads-body :
    (packages : List Package)
    → Fits packages
    → Reads read_body
        (all_enum_views packages, all_struct_views packages)
        (body_bytes (enum_section packages) (struct_section packages))
unfolding read_body body_bytes
Reads-body packages fits =
    let ss : Section = struct_section packages in
    let names : List Bytes = ss.emit.names in
    let good =
      Grows-Good (structs_grown packages) (Grows-Good (enums_grown packages) empty-IsTable) in
    Reads-counted read_entry read_types names (all_enum_views packages, all_struct_views packages)
      (length names) (name_bytes names)
      (u32 (enum_section packages).count
        ++ ((enum_section packages).emit.out ++ (u32 ss.count ++ ss.emit.out)))
      (omega (arith, fits.names_fit)) refl (Reads-names names good.short)
      (Reads-types packages fits)

-- What a file of these packages says, with the sizes of its body.
unfoldable pub file_view : List Package → FileView
file_view packages =
    let size : ℕ = length (body_bytes (enum_section packages) (struct_section packages)) in
    record {
      magic = 12484;
      version = 0;
      compression = 0;
      compressed_size = size;
      size = size;
      types = (all_enum_views packages, all_struct_views packages);
    }

Reads-file :
    (packages : List Package)
    → Fits packages
    → Reads read_file
        (file_view packages)
        (file_bytes (body_bytes (enum_section packages) (struct_section packages)))
unfolding read_file file_view file_bytes
Reads-file packages fits =
    let body : Bytes = body_bytes (enum_section packages) (struct_section packages) in
    let size : ℕ = length body in
    let types : TypesView = (all_enum_views packages, all_struct_views packages) in
    let view : ℕ → ℕ → ℕ → ℕ → ℕ → TypesView → FileView = λ a b c d e ts. record {
      magic = a;
      version = b;
      compression = c;
      compressed_size = d;
      size = e;
      types = ts;
    } in
    let whole : FileView = view k_magic 0 0 size size types in
    let last =
      Reads-end read_body (view k_magic 0 0 size size) types body (Reads-body packages fits) in
    let sizes =
      Reads-bind read_u32
        (λ d. bind read_u32 (λ e. bind read_body (λ ts. pure (view k_magic 0 0 d e ts)))) size whole
        (u32 size) (u32 size ++ body) (Reads-u32 size fits.body_fits)
        (Reads-bind read_u32 (λ e. bind read_body (λ ts. pure (view k_magic 0 0 size e ts))) size
          whole (u32 size) body (Reads-u32 size fits.body_fits) last) in
    Reads-bind read_u16
      (λ a. bind read_u8 (λ b. bind read_u8 (λ c.
        bind read_u32 (λ d. bind read_u32 (λ e. bind read_body (λ ts. pure (view a b c d e ts)))))))
      k_magic whole (u16 k_magic) (0 ∷ 0 ∷ (u32 size ++ (u32 size ++ body)))
      (Reads-u16 k_magic (omega arith))
      (Reads-bind read_u8
        (λ b. bind read_u8 (λ c.
          bind read_u32
            (λ d. bind read_u32 (λ e. bind read_body (λ ts. pure (view k_magic b c d e ts))))))
        0 whole (0 ∷ []) (0 ∷ (u32 size ++ (u32 size ++ body))) (Reads-u8 0)
        (Reads-bind read_u8
          (λ c.
            bind read_u32
              (λ d. bind read_u32 (λ e. bind read_body (λ ts. pure (view k_magic 0 c d e ts)))))
          0 whole (0 ∷ []) (u32 size ++ (u32 size ++ body)) (Reads-u8 0) sizes))

-- What a reader makes of the outcome: there is no file, since the dump is partial or since WriteFile
-- has failed, or there is one, which the reader cannot take, or which holds these types.
pub data Seen : Type 0 where
  no_file : Seen
  failed : Bytes → Seen
  unreadable : Seen
  holds : TypesView → Seen

-- The magic number of the format in its first version, with no compression, and both sizes those of
-- what follows the twelve bytes of the header.
unfoldable pub is_valid : ℕ → FileView → Bool
is_valid size view =
    (view.magic == 12484)
    && ((view.version == 0)
        && ((view.compression == 0)
            && ((view.compressed_size + 12 == size) && (view.size + 12 == size))))

unfoldable pub taken_whole : ℕ → Option (FileView × Bytes) → Seen
taken_whole size none = unreadable
taken_whole size (some (view, b ∷ rest)) = unreadable
taken_whole size (some (view, [])) = if is_valid size view then holds view.types else unreadable

unfoldable pub seen_file : Emitted → Seen
seen_file refused = no_file
seen_file (not_written error warnings) = failed error
seen_file (file path bytes warnings) = taken_whole (length bytes) (read_file bytes)

-- What is to be seen, by what WriteFile gives.
unfoldable pub due : TypesView → Option Bytes → Seen
due types none = holds types
due types (some error) = failed error

length-file_bytes : (body : Bytes) → length (file_bytes body) ≡ length body + 12
unfolding file_bytes u16 u32
length-file_bytes body = omega arith

taken_whole-read :
    (packages : List Package)
    → Fits packages
    → taken_whole (length (usmap_bytes packages)) (read_file (usmap_bytes packages))
      ≡ holds (all_enum_views packages, all_struct_views packages)
unfolding taken_whole usmap_bytes file_view is_valid
taken_whole-read packages fits =
    let body : Bytes = body_bytes (enum_section packages) (struct_section packages) in
    let read : read_file (file_bytes body) ≡ some (file_view packages, []) =
      ap (λ (bs : Bytes). read_file bs) (sym (append-nil (file_bytes body)))
      ∙ Reads-file packages fits [] in
    let sizes : (length body + 12 == length body + 12) ≡ true = ground arith in
    rw (read, length-file_bytes body, sizes) refl

-- EmitUsmap refuses a partial dump, unless it is allowed, and then there is no file. Otherwise, where
-- the format has room for the packages that the filter lets through, either WriteFile fails and its
-- error is returned, or a reader takes the whole file, finds the header of the format with the right
-- sizes, and learns every enum and every class and struct with a name, with the names, the places and
-- the types of their members by the codes of the format, as far as the format can say them.
pub emit_usmap-seen :
    (write_file : Bytes → Bytes → Option Bytes) (dump : Dump) (options : EmitOptions)
    → Fits (included options.package_filter dump.packages)
    → seen_file (emit_usmap write_file dump options) ≡ (
        if dump.header.partial && not options.allow_partial
        then no_file
        else due
            (
              all_enum_views (included options.package_filter dump.packages),
              all_struct_views (included options.package_filter dump.packages),
            )
            (write_file
              (usmap_path dump.header options)
              (usmap_bytes (included options.package_filter dump.packages))))
unfolding emit_usmap seen_file written_to due
emit_usmap-seen write_file dump options fits =
    let packages : List Package = included options.package_filter dump.packages in
    elim (Bool-cases (dump.header.partial && not options.allow_partial)) [
      | inl partial ↦ rw partial refl
      | inr whole ↦
          elim (Option-cases (write_file (usmap_path dump.header options) (usmap_bytes packages))) [
            | inl done ↦ rw (whole, done) (taken_whole-read packages fits)
            | inr (error, e) ↦ rw (whole, e) refl
          ]
    ]
