-- ===== src/Memory/Lookup.antt =====
-- The lookups of src/core/src/MemorySource.cpp by name and by address.
use Prim.Native.Nat.{bit_and}
use zircon_dumper.Prelude.{
  ℕ, ◌+◌, ◌%◌, ◌^◌, ◌≤◌, ◌<◌, ◌≡◌, ap, Bool, true, false, not, ◌&&◌, Option, none, some, List, [],
  ◌∷◌, ◌++◌, arith, leb, ltb, ◌==◌, if◌then◌else◌, Bool-cases, inl, inr,
}
use zircon_dumper.Prelude.Preds.{Bytes, All}

pub record ModuleInfo : Type 0 where
  pub name : Bytes
  pub path : Bytes
  pub base : ℕ
  pub size : ℕ

-- `protect` is the bit set of RegionProtect: 1 read, 2 write, 4 execute.
pub record RegionInfo : Type 0 where
  pub base : ℕ
  pub size : ℕ
  pub protect : ℕ
  pub is_image : Bool

abbrev pub protect_read : ℕ
protect_read = 1

abbrev pub protect_write : ℕ
protect_write = 2

abbrev pub protect_execute : ℕ
protect_execute = 4

abbrev pub has_flag : ℕ → ℕ → Bool
has_flag v f = not (bit_and v f == 0)

-- `std::tolower` of the C locale.
abbrev pub to_lower : ℕ → ℕ
to_lower c = if leb b'A' c && leb c b'Z' then c + 32 else c

unfoldable pub equal_no_case : Bytes → Bytes → Bool
equal_no_case [] [] = true
equal_no_case (x ∷ xs) (y ∷ ys) = (to_lower x == to_lower y) && equal_no_case xs ys
equal_no_case _ _ = false

-- `std::find_if`.
unfoldable pub find_if {ℓ} : {A : Type ℓ} → (A → Bool) → List A → Option A
find_if p [] = none
find_if p (x ∷ xs) = if p x then some x else find_if p xs

unfoldable pub find_module : List ModuleInfo → Bytes → Option ModuleInfo
find_module modules name = find_if (λ m. equal_no_case m.name name) modules

unfoldable pub main_module : List ModuleInfo → Option ModuleInfo
main_module [] = none
main_module (m ∷ ms) = some m

-- The end of a region is a sum of 64-bit numbers.
unfoldable pub contains : RegionInfo → ℕ → Bool
contains r addr = leb r.base addr && ltb addr ((r.base + r.size) % 2 ^ 64)

unfoldable pub region_containing : List RegionInfo → ℕ → Option RegionInfo
region_containing regions addr = find_if (λ r. contains r addr) regions

-- The first element that passes, with those that fail in front of it.
pub record Finds {ℓ} {A : Type ℓ} (p : A → Bool) (xs : List A) (x : A) : Type ℓ where
  pub front : List A
  pub back : List A
  pub splits : xs ≡ front ++ x ∷ back
  pub passes : p x ≡ true
  pub others_fail : All (λ y. p y ≡ false) front

find_if-Finds {ℓ} :
    {A : Type ℓ} (p : A → Bool) (xs : List A) {x : A} → find_if p xs ≡ some x → Finds p xs x
unfolding find_if
find_if-Finds p [] h = cc
find_if-Finds p (y ∷ ys) {x} h = elim (Bool-cases (p y)) [
  | inl hit ↦
      let e : y ≡ x = cc (rw hit at h) in
      record {
        front = [];
        back = ys;
        splits = ap (λ z. z ∷ ys) e;
        passes = rw e at hit;
        others_fail = tt;
      }
  | inr miss ↦
      let f = find_if-Finds p ys (rw miss at h) in
      record {
        front = y ∷ f.front;
        back = f.back;
        splits = ap (◌∷◌ y) f.splits;
        passes = f.passes;
        others_fail = (miss, f.others_fail);
      }
]

find_if-none {ℓ} :
    {A : Type ℓ} (p : A → Bool) (xs : List A) → find_if p xs ≡ none → All (λ x. p x ≡ false) xs
unfolding find_if
find_if-none p [] h = tt
find_if-none p (y ∷ ys) h = elim (Bool-cases (p y)) [
  | inl hit ↦ cc (rw hit at h)
  | inr miss ↦ (miss, find_if-none p ys (rw miss at h))
]

All-map {ℓ} :
    {A : Type ℓ} (P Q R : A → Type 0) (xs : List A)
    → ((x : A) → P x → Q x → R x)
    → All P xs
    → All Q xs
    → All R xs
All-map P Q R [] f hp hq = tt
All-map P Q R (x ∷ xs) f hp hq = (f x hp.0 hq.0, All-map P Q R xs f hp.1 hq.1)

-- `addr` lies in the region.
pub record Covers (addr : ℕ) (r : RegionInfo) : Type 0 where
  pub from : r.base ≤ addr
  pub below : addr < r.base + r.size

abbrev pub Fits : RegionInfo → Type 0
Fits r = r.base + r.size < 2 ^ 64

contains-true : (r : RegionInfo) (addr : ℕ) → Fits r → contains r addr ≡ true → Covers addr r
unfolding contains
contains-true r addr fits h = ground arith

contains-false : (r : RegionInfo) (addr : ℕ) → Fits r → contains r addr ≡ false → ¬ Covers addr r
unfolding contains
contains-false r addr fits h c = ground arith

-- Where no region reaches the end of the address space, RegionContaining returns no region only if
-- no region covers the address.
pub region_containing-none :
    (regions : List RegionInfo) (addr : ℕ)
    → All Fits regions
    → region_containing regions addr ≡ none
    → All (λ r. ¬ Covers addr r) regions
unfolding region_containing
region_containing-none regions addr fits h =
    All-map Fits (λ r. contains r addr ≡ false) (λ r. ¬ Covers addr r) regions
      (λ r f e. contains-false r addr f e) fits (find_if-none _ regions h)

-- The region that covers the address, and none in front of it does.
pub record FirstCovering (regions : List RegionInfo) (addr : ℕ) (r : RegionInfo) : Type 0 where
  pub front : List RegionInfo
  pub back : List RegionInfo
  pub splits : regions ≡ front ++ r ∷ back
  pub covers : Covers addr r
  pub others : All (λ y. ¬ Covers addr y) front

All-append_left {ℓ} : {A : Type ℓ} (P : A → Type 0) (xs ys : List A) → All P (xs ++ ys) → All P xs
All-append_left P [] ys h = tt
All-append_left P (x ∷ xs) ys h = (h.0, All-append_left P xs ys h.1)

All-append_right {ℓ} : {A : Type ℓ} (P : A → Type 0) (xs ys : List A) → All P (xs ++ ys) → All P ys
All-append_right P [] ys h = h
All-append_right P (x ∷ xs) ys h = All-append_right P xs ys h.1

-- Where no region reaches the end of the address space, a region that RegionContaining returns
-- covers the address, and it is the first one of the list that does.
pub region_containing-FirstCovering :
    (regions : List RegionInfo) (addr : ℕ) {r : RegionInfo}
    → All Fits regions
    → region_containing regions addr ≡ some r
    → FirstCovering regions addr r
unfolding region_containing
region_containing-FirstCovering regions addr {r} fits h =
    let f = find_if-Finds (λ r. contains r addr) regions h in
    let fits' : All Fits (f.front ++ r ∷ f.back) = rw f.splits at fits in
    record {
      front = f.front;
      back = f.back;
      splits = f.splits;
      covers = contains-true r addr (All-append_right Fits f.front (r ∷ f.back) fits').0 f.passes;
      others =
          All-map Fits (λ r. contains r addr ≡ false) (λ r. ¬ Covers addr r) f.front
            (λ r f e. contains-false r addr f e) (All-append_left Fits f.front (r ∷ f.back) fits')
            f.others_fail;
    }
