-- ===== src/Emit/Usmap/Read.antt =====
-- A reader of the format of src/emit/src/Usmap.cpp, and what it means that bytes are read as a value.
use zircon_dumper.Prelude.{
  ℕ, zero, suc, ◌+◌, ◌*◌, ◌/◌, ◌%◌, ◌^◌, ◌<◌, ◌≡◌, refl, ap, ◌∙◌, subst, ◌||◌, Option, none, some,
  List, [], ◌∷◌, ◌++◌, append_assoc, ◌==◌, if◌then◌else◌, get_elem?, length, arith,
}
use zircon_dumper.Prelude.Preds.{Bytes}
use zircon_dumper.Emit.Usmap.{u16, u32}

-- A value in front of the bytes, and the bytes behind it.
abbrev pub Parser : Type 0 → Type 0
Parser A = Bytes → Option (A × Bytes)

unfoldable pub pure : {A : Type 0} → A → Parser A
pure a bytes = some (a, bytes)

unfoldable pub next_of : {A B : Type 0} → Option (A × Bytes) → (A → Parser B) → Option (B × Bytes)
next_of none k = none
next_of (some (a, rest)) k = k a rest

unfoldable pub bind : {A B : Type 0} → Parser A → (A → Parser B) → Parser B
bind p k bytes = next_of (p bytes) k

-- The parser takes exactly these bytes and gives the value, whatever follows.
abbrev pub Reads : {A : Type 0} → Parser A → A → Bytes → Type 0
Reads p a bytes = (rest : Bytes) → p (bytes ++ rest) ≡ some (a, rest)

pub Reads-pure : {A : Type 0} (a : A) → Reads (pure a) a []
unfolding pure
Reads-pure a rest = refl

pub Reads-bind :
    {A B : Type 0} (p : Parser A) (k : A → Parser B) (a : A) (b : B) (xs ys : Bytes)
    → Reads p a xs
    → Reads (k a) b ys
    → Reads (bind p k) b (xs ++ ys)
unfolding bind next_of
Reads-bind {A = A} p k a b xs ys first second rest =
    ap (λ (zs : Bytes). next_of (p zs) k) (append_assoc xs ys rest)
    ∙ (ap (λ (r : Option (A × Bytes)). next_of r k) (first (ys ++ rest)) ∙ second rest)

-- The last step of a chain gives no bytes more.
pub Reads-end :
    {A B : Type 0} (p : Parser A) (f : A → B) (a : A) (xs : Bytes)
    → Reads p a xs
    → Reads (bind p (λ x. pure (f x))) (f a) xs
unfolding bind next_of pure
Reads-end {A = A} p f a xs first rest =
    ap (λ (r : Option (A × Bytes)). next_of r (λ (x : A). pure (f x))) (first rest)

unfoldable pub read_u8 : Parser ℕ
read_u8 [] = none
read_u8 (b ∷ bytes) = some (b, bytes)

unfoldable pub read_u16 : Parser ℕ
read_u16 = bind read_u8 (λ low. bind read_u8 (λ high. pure (low + high * 256)))

unfoldable pub read_u32 : Parser ℕ
read_u32 = bind read_u16 (λ low. bind read_u16 (λ high. pure (low + high * 65536)))

pub Reads-u8 : (b : ℕ) → Reads read_u8 b (b ∷ [])
unfolding read_u8
Reads-u8 b rest = refl

pub Reads-u16 : (v : ℕ) → v < 2 ^ 16 → Reads read_u16 v (u16 v)
unfolding read_u16 read_u8 u16 bind next_of pure
Reads-u16 v lt rest =
    let whole : v % 2 ^ 8 + v / 2 ^ 8 % 2 ^ 8 * 256 ≡ v = omega arith in
    ap (λ (n : ℕ). some (n, rest)) whole

pub Reads-u32 : (v : ℕ) → v < 2 ^ 32 → Reads read_u32 v (u32 v)
unfolding read_u32 u32
Reads-u32 v lt =
    let whole : v % 2 ^ 16 + v / 2 ^ 16 % 2 ^ 16 * 65536 ≡ v = omega arith in
    let low = Reads-u16 (v % 2 ^ 16) (omega arith) in
    let high = Reads-u16 (v / 2 ^ 16 % 2 ^ 16) (omega arith) in
    subst (λ (n : ℕ). Reads read_u32 n (u16 (v % 2 ^ 16) ++ u16 (v / 2 ^ 16 % 2 ^ 16))) whole
      (Reads-bind read_u16 (λ (l : ℕ). bind read_u16 (λ (h : ℕ). pure (l + h * 65536))) (v % 2 ^ 16)
        (v % 2 ^ 16 + v / 2 ^ 16 % 2 ^ 16 * 65536) (u16 (v % 2 ^ 16)) (u16 (v / 2 ^ 16 % 2 ^ 16))
        low
        (Reads-end read_u16 (λ (h : ℕ). v % 2 ^ 16 + h * 65536) (v / 2 ^ 16 % 2 ^ 16)
          (u16 (v / 2 ^ 16 % 2 ^ 16)) high))

-- As many bytes as are asked for.
unfoldable pub read_raw : ℕ → Parser Bytes
read_raw zero bytes = some ([], bytes)
read_raw (suc n) [] = none
read_raw (suc n) (b ∷ bytes) = next_of (read_raw n bytes) (λ text. pure (b ∷ text))

pub Reads-raw : (text : Bytes) → Reads (read_raw (length text)) text text
unfolding read_raw pure next_of
Reads-raw [] rest = refl
Reads-raw (b ∷ text) rest =
    ap (λ (r : Option (Bytes × Bytes)). next_of r (λ (ts : Bytes). pure (b ∷ ts)))
      (Reads-raw text rest)

-- As many values as are asked for.
unfoldable pub read_many : {A : Type 0} → ℕ → Parser A → Parser (List A)
read_many zero p = pure []
read_many (suc n) p = bind p (λ a. bind (read_many n p) (λ rest. pure (a ∷ rest)))

-- The name of an index; an index without a name stands for none.
unfoldable pub read_name : List Bytes → Parser (Option Bytes)
read_name names = bind read_u32 (λ id. pure (get_elem? names id))

-- What a reader learns of the type of a property: its byte, its inner types and its name.
pub data Shape : Type 0 where
  plain : ℕ → Shape
  enum_of : Shape → Option Bytes → Shape
  struct_of : Option Bytes → Shape
  inner_of : ℕ → Shape → Shape
  map_of : Shape → Shape → Shape

unfoldable pub read_payload : Parser Shape → List Bytes → ℕ → Parser Shape
read_payload inner names code =
    if code == 26
    then bind inner (λ storage. bind (read_name names) (λ name. pure (enum_of storage name)))
    else if code == 9
    then bind (read_name names) (λ name. pure (struct_of name))
    else if (code == 8) || (code == 25) || (code == 28)
    then bind inner (λ shape. pure (inner_of code shape))
    else if code == 24
    then bind inner (λ key. bind inner (λ value. pure (map_of key value)))
    else pure (plain code)

-- A type of at most so many levels.
unfoldable pub read_shape : ℕ → List Bytes → Parser Shape
read_shape zero names = λ bytes. none
read_shape (suc f) names = bind read_u8 (read_payload (read_shape f names) names)
