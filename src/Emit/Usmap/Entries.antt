-- ===== src/Emit/Usmap/Entries.antt =====
-- A reader learns from an entry of src/emit/src/Usmap.cpp what the enum or struct is.
use zircon_dumper.Prelude.{
  ℕ, suc, ◌≡◌, refl, sym, ap, ◌∙◌, subst, min, Option, List, [], ◌∷◌, ◌++◌, append-nil, map, ltb,
  take, length, length-take, arith, Bool-cases, inl, inr,
}
use zircon_dumper.Prelude.Preds.{Bytes}
use zircon_dumper.Ir.{EnumValue}
use zircon_dumper.Emit.Usmap.{Warning, many_values, Emit, write, warn, write_name}
use zircon_dumper.Emit.Usmap.File.{write_values, enum_entry}
use zircon_dumper.Emit.Usmap.Read.{
  Parser, pure, bind, Reads-pure, Reads-u8, read_u8, read_many, read_name,
}
use zircon_dumper.Emit.Usmap.Table.{
  IsTable, Extends-refl, Writes, Writes-bytes, Writes-bind, Writes-end, kept_name,
  write_name-Writes,
}

-- The warnings do not matter to what is read.
pub Writes-warned :
    {A : Type 0} (read : List Bytes → Parser A) (a : A) (e e' : Emit) (ws : List Warning)
    → Writes read a (record e { warnings = ws }) e'
    → Writes read a e e'
Writes-warned read a e e' ws w = record {
  added = w.added;
  out_is = w.out_is;
  extends = w.extends;
  table = w.table;
  reads = w.reads;
}

-- Values one after another, with warnings between them.
pub data Items {A : Type 0} (read : List Bytes → Parser A) : List A → Emit → Emit → Type 0 where
  done : {e : Emit} → Items read [] e e
  next :
      {a : A} {xs : List A} {e e' e'' : Emit}
      → Writes read a e e'
      → Items read xs e' e''
      → Items read (a ∷ xs) e e''
  quiet :
      {xs : List A} {e e' : Emit} (ws : List Warning)
      → Items read xs (record e { warnings = ws }) e'
      → Items read xs e e'

pub Items-IsTable :
    {A : Type 0} {read : List Bytes → Parser A} {xs : List A} {e e' : Emit}
    → Items read xs e e'
    → IsTable e.names e.index
    → IsTable e'.names e'.index
Items-IsTable done ok = ok
Items-IsTable (next w rest) ok = Items-IsTable rest w.table
Items-IsTable (quiet ws rest) ok = Items-IsTable rest ok

pub Items-append :
    {A : Type 0} {read : List Bytes → Parser A} {xs ys : List A} {e e' e'' : Emit}
    → Items read xs e e'
    → Items read ys e' e''
    → Items read (xs ++ ys) e e''
Items-append done more = more
Items-append (next w rest) more = next w (Items-append rest more)
Items-append (quiet ws rest) more = quiet ws (Items-append rest more)

pub Items-Writes :
    {A : Type 0} {read : List Bytes → Parser A} {xs : List A} {e e' : Emit}
    → Items read xs e e'
    → IsTable e.names e.index
    → Writes (λ names. read_many (length xs) (read names)) xs e e'
unfolding read_many
Items-Writes {e = e} done ok = record {
  added = [];
  out_is = sym (append-nil e.out);
  extends = Extends-refl e.names;
  table = ok;
  reads = λ names later few. Reads-pure [];
}
Items-Writes {read = read} (next {a = a} {xs = xs} {e = e} {e' = e'} {e'' = e''} w rest) ok =
    Writes-bind read (λ names x. bind (read_many (length xs) (read names)) (λ ys. pure (x ∷ ys))) a
      (a ∷ xs) e e' e'' w
      (Writes-end (λ names. read_many (length xs) (read names)) (λ ys. a ∷ ys) xs e' e''
        (Items-Writes rest w.table))
Items-Writes {read = read} (quiet {xs = xs} {e = e} {e' = e'} ws rest) ok =
    Writes-warned (λ names. read_many (length xs) (read names)) xs e e' ws (Items-Writes rest ok)

-- What a reader learns of an enum: its name and the names of its values.
pub record EnumView : Type 0 where
  pub name : Option Bytes
  pub values : List (Option Bytes)

abbrev pub value_names : List EnumValue → List (Option Bytes)
value_names values = map (λ v. kept_name v.name) values

unfoldable pub enum_view : Bytes → List EnumValue → EnumView
enum_view leaf values = record {
  name = kept_name leaf;
  values = value_names (take (min (length values) 255) values);
}

unfoldable pub read_enum : List Bytes → Parser EnumView
read_enum names = bind (read_name names) (λ name. bind read_u8 (λ n.
    bind (read_many n (read_name names))
      (λ values. pure (record { name = name; values = values }))))

values-Items :
    (values : List EnumValue) (e : Emit)
    → IsTable e.names e.index
    → Items read_name (value_names values) e (write_values values e)
unfolding write_values
values-Items [] e ok = done
values-Items (v ∷ values) e ok =
    let w = write_name-Writes v.name e ok in
    next w (values-Items values (write_name v.name e) w.table)

length-value_names : (values : List EnumValue) → length (value_names values) ≡ length values
length-value_names [] = refl
length-value_names (v ∷ values) = ap suc (length-value_names values)

-- The entry without its warning.
enum_rest-Writes :
    (leaf : Bytes) (values : List EnumValue) (n : ℕ) (e : Emit)
    → length values ≡ n
    → IsTable e.names e.index
    → Writes read_enum
        (record { name = kept_name leaf; values = value_names values })
        e
        (write_values values (write (n ∷ []) (write_name leaf e)))
unfolding read_enum
enum_rest-Writes leaf values n e size ok =
    let e1 : Emit = write_name leaf e in
    let e2 : Emit = write (n ∷ []) e1 in
    let e3 : Emit = write_values values e2 in
    let named = write_name-Writes leaf e ok in
    let counted =
      Writes-bytes (λ names. read_u8) n (n ∷ []) e1 e1.warnings named.table (λ names. Reads-u8 n) in
    let listed = Items-Writes (values-Items values e2 named.table) named.table in
    let view : List (Option Bytes) → EnumView =
      λ vs. record { name = kept_name leaf; values = vs } in
    Writes-bind read_name
      (λ names name. bind read_u8 (λ k.
        bind (read_many k (read_name names)) (λ vs. pure (record { name = name; values = vs }))))
      (kept_name leaf) (view (value_names values)) e e1 e3 named
      (Writes-bind (λ names. read_u8)
        (λ names k. bind (read_many k (read_name names)) (λ vs. pure (view vs))) n
        (view (value_names values)) e1 e2 e3 counted
        (Writes-end (λ names. read_many n (read_name names)) view (value_names values) e2 e3
          (subst
            (λ (k : ℕ). Writes (λ names. read_many k (read_name names)) (value_names values) e2 e3)
            (length-value_names values ∙ size) listed)))

pub enum_entry-Writes :
    (leaf : Bytes) (values : List EnumValue) (e : Emit)
    → IsTable e.names e.index
    → Writes read_enum (enum_view leaf values) e (enum_entry leaf values e)
unfolding enum_entry enum_view
enum_entry-Writes leaf values e ok =
    let n : ℕ = min (length values) 255 in
    let size : length (take n values) ≡ n = omega (arith, length-take n values) in
    elim (Bool-cases (ltb 255 (length values))) [
      | inl many ↦
          let e' : Emit = warn (many_values leaf (length values)) e in
          rw many (
            Writes-warned read_enum (enum_view leaf values) e
              (write_values (take n values) (write (n ∷ []) (write_name leaf e'))) e'.warnings
              (enum_rest-Writes leaf (take n values) n e' size ok))
      | inr few ↦ rw few (enum_rest-Writes leaf (take n values) n e size ok)
    ]
