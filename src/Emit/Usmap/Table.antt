-- ===== src/Emit/Usmap/Table.antt =====
-- The name table of src/emit/src/Usmap.cpp: what Add keeps of it, and steps that write a value.
use zircon_dumper.Prelude.{
  ℕ, zero, suc, ◌-◌, ◌%◌, ◌^◌, ◌≤◌, ◌<◌, ◌≡◌, refl, sym, ap, ◌∙◌, subst, Option, none, some, List,
  [], ◌∷◌, ◌++◌, append_assoc, append-nil, ltb, if◌then◌else◌, get_elem?, take, length,
  length-append, length-take, arith, Bool-cases, Option-cases, inl, inr,
}
use zircon_dumper.Prelude.Preds.{Bytes, All, All-append}
use zircon_dumper.Prelude.Text.{same_bytes, same_bytes-true, lookup}
use zircon_dumper.Emit.Usmap.{
  u32, k_no_name, Warning, name_truncated, Emit, write, warn, intern, add_name, write_name,
}
use zircon_dumper.Emit.Usmap.Read.{
  Parser, pure, bind, Reads, Reads-bind, Reads-end, Reads-u32, read_u32, read_name,
}

pub get_elem?-append :
    {A : Type 0} (xs ys : List A) (i : ℕ) → i < length xs → get_elem? (xs ++ ys) i ≡ get_elem? xs i
get_elem?-append [] ys i lt = absurd (omega arith)
get_elem?-append (x ∷ xs) ys zero lt = refl
get_elem?-append (x ∷ xs) ys (suc i) lt = get_elem?-append xs ys i (omega arith)

get_elem?-last : {A : Type 0} (xs : List A) (y : A) → get_elem? (xs ++ y ∷ []) (length xs) ≡ some y
get_elem?-last [] y = refl
get_elem?-last (x ∷ xs) y = get_elem?-last xs y

get_elem?-none : {A : Type 0} (xs : List A) (i : ℕ) → length xs ≤ i → get_elem? xs i ≡ none
get_elem?-none [] i le = refl
get_elem?-none (x ∷ xs) zero le = absurd (omega arith)
get_elem?-none (x ∷ xs) (suc i) le = get_elem?-none xs i (omega arith)

-- No name is longer than its length byte can say, and while fewer than 2 ^ 32 names are there, what
-- `index_` gives for a name is its place in `names_`.
pub record IsTable (names : List Bytes) (index : List (Bytes × ℕ)) : Type 0 where
  pub short : All (λ n. length n ≤ 255) names
  pub places :
      (key : Bytes) (id : ℕ)
      → lookup index key ≡ some id
      → length names < 2 ^ 32
      → (id < length names) × (get_elem? names id ≡ some key)

abbrev pub Extends : List Bytes → List Bytes → Type 0
Extends names names' = (more : List Bytes) × (names' ≡ names ++ more)

pub Extends-refl : (names : List Bytes) → Extends names names
Extends-refl names = ([], sym (append-nil names))

pub Extends-trans : (a b c : List Bytes) → Extends a b → Extends b c → Extends a c
Extends-trans a b c (xs, e) (ys, e') =
    (xs ++ ys, e' ∙ (ap (λ (zs : List Bytes). zs ++ ys) e ∙ append_assoc a xs ys))

Extends-length : (a b : List Bytes) → Extends a b → length a ≤ length b
Extends-length a b (xs, e) =
    omega (arith, ap (λ (zs : List Bytes). length zs) e, length-append a xs)

-- From `e` to `e'` bytes are written that a reader with the finished table reads as the value.
pub record Writes {A : Type 0} (read : List Bytes → Parser A) (a : A) (e e' : Emit) : Type 0 where
  pub added : Bytes
  pub out_is : e'.out ≡ e.out ++ added
  pub extends : Extends e.names e'.names
  pub table : IsTable e'.names e'.index
  pub reads :
      (names : List Bytes)
      → Extends e'.names names
      → length names < 2 ^ 32 - 1
      → Reads (read names) a added

-- Fixed bytes, with warnings or without.
pub Writes-bytes :
    {A : Type 0} (read : List Bytes → Parser A) (a : A) (bytes : Bytes) (e : Emit)
    (ws : List Warning)
    → IsTable e.names e.index
    → ((names : List Bytes) → Reads (read names) a bytes)
    → Writes read a e (write bytes (record e { warnings = ws }))
Writes-bytes read a bytes e ws ok reads = record {
  added = bytes;
  out_is = refl;
  extends = Extends-refl e.names;
  table = ok;
  reads = λ names later few. reads names;
}

pub Writes-bind :
    {A B : Type 0} (p : List Bytes → Parser A) (k : List Bytes → A → Parser B) (a : A) (b : B)
    (e e' e'' : Emit)
    → Writes p a e e'
    → Writes (λ names. k names a) b e' e''
    → Writes (λ names. bind (p names) (k names)) b e e''
Writes-bind p k a b e e' e'' first second = record {
  added = first.added ++ second.added;
  out_is =
      second.out_is
      ∙ (ap (λ (zs : Bytes). zs ++ second.added) first.out_is
          ∙ append_assoc e.out first.added second.added);
  extends = Extends-trans e.names e'.names e''.names first.extends second.extends;
  table = second.table;
  reads = λ names later few.
      Reads-bind (p names) (k names) a b first.added second.added
        (first.reads names (Extends-trans e'.names e''.names names second.extends later) few)
        (second.reads names later few);
}

-- The last step of a chain.
pub Writes-end :
    {A B : Type 0} (p : List Bytes → Parser A) (f : A → B) (a : A) (e e' : Emit)
    → Writes p a e e'
    → Writes (λ names. bind (p names) (λ x. pure (f x))) (f a) e e'
Writes-end p f a e e' first = record {
  added = first.added;
  out_is = first.out_is;
  extends = first.extends;
  table = first.table;
  reads = λ names later few. Reads-end (p names) f a first.added (first.reads names later few);
}

-- The name that the table keeps for a name.
unfoldable pub kept_name : Bytes → Option Bytes
kept_name [] = none
kept_name (c ∷ cs) = if ltb 255 (length (c ∷ cs)) then some (take 255 (c ∷ cs)) else some (c ∷ cs)

-- What Add gives for a name that is not empty: a place where the name stands from then on.
record Added (key : Bytes) (e : Emit) (got : ℕ × Emit) : Type 0 where
  same_out : got.1.out ≡ e.out
  grown : Extends e.names got.1.names
  still_table : IsTable got.1.names got.1.index
  placed :
      length got.1.names < 2 ^ 32
      → (got.0 < length got.1.names) × (get_elem? got.1.names got.0 ≡ some key)

-- A new name at the end of the table.
push_places :
    (names : List Bytes) (index : List (Bytes × ℕ)) (key : Bytes)
    → length key ≤ 255
    → IsTable names index
    → (k : Bytes) (id : ℕ) → lookup ((key, length names % 2 ^ 32) ∷ index) k ≡ some id
    → length (names ++ key ∷ []) < 2 ^ 32
    → (id < length (names ++ key ∷ [])) × (get_elem? (names ++ key ∷ []) id ≡ some k)
unfolding lookup
push_places names index key le ok k id found few =
    let size = length-append names (key ∷ []) in
    elim (Bool-cases (same_bytes key k)) [
      | inl same ↦
          let first : Path (Option ℕ) (some (length names % 2 ^ 32)) (some id) = rw same at found in
          let place : length names ≡ id = ground (arith, first) in
          (
            omega arith,
            ap (λ (i : ℕ). get_elem? (names ++ key ∷ []) i) (sym place)
                ∙ (get_elem?-last names key
                    ∙ ap (λ (x : Bytes). some x) (same_bytes-true key k same)),
          )
      | inr other ↦
          let rest : lookup index k ≡ some id = rw other at found in
          let (lt, at_id) = ok.places k id rest (omega arith) in
          (omega arith, get_elem?-append names (key ∷ []) id lt ∙ at_id)
    ]

push-IsTable :
    (names : List Bytes) (index : List (Bytes × ℕ)) (key : Bytes)
    → length key ≤ 255
    → IsTable names index
    → IsTable (names ++ key ∷ []) ((key, length names % 2 ^ 32) ∷ index)
push-IsTable names index key le ok = record {
  short = All-append (λ (n : Bytes). length n ≤ 255) names (key ∷ []) ok.short (le, tt);
  places = push_places names index key le ok;
}

intern-Added :
    (key : Bytes) (e : Emit)
    → length key ≤ 255
    → IsTable e.names e.index
    → Added key e (intern key e (lookup e.index key))
intern-Added key e le ok = elim (Option-cases (lookup e.index key)) [
  | inr (id, found) ↦
      subst (λ (o : Option ℕ). Added key e (intern key e o)) (sym found)
        (unfold intern in
          record {
            same_out = refl;
            grown = Extends-refl e.names;
            still_table = ok;
            placed = λ few. ok.places key id found few;
          })
  | inl missing ↦
      let size = length-append e.names (key ∷ []) in
      subst (λ (o : Option ℕ). Added key e (intern key e o)) (sym missing)
        (unfold intern in
          record {
            same_out = refl;
            grown = (key ∷ [], refl);
            still_table = push-IsTable e.names e.index key le ok;
            placed = λ few.
                let place : length e.names % 2 ^ 32 ≡ length e.names = omega arith in
                (
                  omega arith,
                  ap (λ (i : ℕ). get_elem? (e.names ++ key ∷ []) i) place
                      ∙ get_elem?-last e.names key,
                );
          })
]

-- The index that Add gives is read as the name.
Added-Writes :
    (key : Bytes) (e : Emit) (got : ℕ × Emit)
    → Added key e got
    → Writes read_name (some key) e (write (u32 got.0) got.1)
unfolding read_name
Added-Writes key e (id, e') a = record {
  added = u32 id;
  out_is = ap (λ (zs : Bytes). zs ++ u32 id) a.same_out;
  extends = a.grown;
  table = a.still_table;
  reads = λ names later few.
      let (more, longer) = later in
      let longer_eq = ap (λ (zs : List Bytes). length zs) longer in
      let total = length-append e'.names more in
      let (lt, at_id) = a.placed (omega arith) in
      let there : get_elem? names id ≡ some key =
        ap (λ (zs : List Bytes). get_elem? zs id) longer
        ∙ (get_elem?-append e'.names more id lt ∙ at_id) in
      subst
        (λ (o : Option Bytes).
          Reads (bind read_u32 (λ (i : ℕ). pure (get_elem? names i))) o (u32 id))
        there
        (Reads-end read_u32 (λ (i : ℕ). get_elem? names i) id (u32 id)
          (Reads-u32 id (omega arith)));
}

-- A name that is written is read as what the table keeps of it.
pub write_name-Writes :
    (name : Bytes) (e : Emit)
    → IsTable e.names e.index
    → Writes read_name (kept_name name) e (write_name name e)
unfolding write_name add_name kept_name
write_name-Writes [] e ok = record {
  added = u32 k_no_name;
  out_is = refl;
  extends = Extends-refl e.names;
  table = ok;
  reads = λ names later few.
      subst (λ (o : Option Bytes). Reads (read_name names) o (u32 k_no_name))
        (get_elem?-none names k_no_name (omega arith))
        (unfold read_name in
          Reads-end read_u32 (λ (i : ℕ). get_elem? names i) k_no_name (u32 k_no_name)
            (Reads-u32 k_no_name (omega arith)));
}
write_name-Writes (c ∷ cs) e ok = elim (Bool-cases (ltb 255 (length (c ∷ cs)))) [
  | inl long ↦
      let key : Bytes = take 255 (c ∷ cs) in
      let e' : Emit = warn (name_truncated (c ∷ cs)) e in
      let w =
        Added-Writes key e' (intern key e' (lookup e.index key))
          (intern-Added key e' (omega (arith, length-take 255 (c ∷ cs))) ok) in
      rw long (record {
        added = w.added;
        out_is = w.out_is;
        extends = w.extends;
        table = w.table;
        reads = w.reads;
      })
  | inr short ↦ rw short (
      Added-Writes (c ∷ cs) e (intern (c ∷ cs) e (lookup e.index (c ∷ cs)))
        (intern-Added (c ∷ cs) e (ground arith) ok))
]
