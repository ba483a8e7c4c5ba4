-- ===== src/Memory/Cache/Coherent.antt =====
-- What the slots of the cache in src/core/src/CachedMemorySource.cpp hold.
use zircon_dumper.Prelude.{
  ℕ, zero, suc, ◌+◌, ◌*◌, ◌^◌, ◌≤◌, ◌<◌, ◌≡◌, ◌≢◌, refl, sym, ap, Option, [], ◌∷◌, ◌++◌, arith,
  length, take, drop, ◌==◌, ==_iff, subst, Bool-cases, inl, inr,
}
use zircon_dumper.Prelude.Preds.{Bytes}
use zircon_dumper.Memory.Source.{Source, View, Shows, prefix_read}
use zircon_dumper.Memory.Cache.{
  Cache, page_size, invalid_tag, slot_of, served, update, fetch_page, fill,
}

-- What the inner source reads from a page of the view.
abbrev pub page_bytes : View → ℕ → Bytes
page_bytes v page = prefix_read v (page * page_size) page_size

-- Slot `slot` is the one for page `page`, and holds what the view has there.
pub record Holds {S : Type 0} (v : View) (c : Cache S) (slot page : ℕ) : Type 0 where
  pub count : c.valid slot ≡ length (page_bytes v page)
  pub is_page : page < 2 ^ 52
  pub placed : slot_of c page ≡ slot
  pub same : take (c.valid slot) (c.contents slot) ≡ page_bytes v page

-- Every slot with a tag holds the page that the tag names.
abbrev pub IsCoherent : {S : Type 0} → View → Cache S → Type 0
IsCoherent v c = (slot : ℕ) → c.tags slot ≢ invalid_tag → Holds v c slot (c.tags slot)

take-append_length : (xs ys : Bytes) → take (length xs) (xs ++ ys) ≡ xs
take-append_length [] ys = refl
take-append_length (x ∷ xs) ys = rw (take-append_length xs ys)

pub take-drop-take :
    (n i k : ℕ) (xs : Bytes) → i + k ≤ n → take k (drop i (take n xs)) ≡ take k (drop i xs)
take-drop-take n zero zero xs h = refl
take-drop-take zero zero (suc k) xs h = absurd (omega arith)
take-drop-take zero (suc i) k xs h = absurd (omega arith)
take-drop-take (suc n) zero (suc k) [] h = refl
take-drop-take (suc n) zero (suc k) (x ∷ xs) h =
    ap (◌∷◌ x) (take-drop-take n zero k xs (omega arith))
take-drop-take (suc n) (suc i) k [] h = refl
take-drop-take (suc n) (suc i) k (x ∷ xs) h = take-drop-take n i k xs (omega arith)

update_self {ℓ} : {A : Type ℓ} (f : ℕ → A) (k : ℕ) (v : A) → update f k v k ≡ v
update_self f k v = ground arith

-- The state after `FetchPage` for `page`, and the bytes that it returned.
pub record Fetched {S : Type 0} (v : View) (c c' : Cache S) (found : Option Bytes) (page : ℕ)
    : Type 0 where
  pub coherent : IsCoherent v c'
  pub holds : Holds v c' (slot_of c' page) page
  pub inner_kept : c'.inner ≡ c.inner
  pub returned : found ≡ served c' (slot_of c' page)

module _ {S : Type 0} (src : Source S) where
  fill-Holds :
      (v : View) (c : Cache S) (page : ℕ)
      → Shows src c.inner v
      → page < 2 ^ 52
      → Holds v (fill src c page) (slot_of c page) page
  unfolding fill
  fill-Holds v c page shows h = rw (shows (page * page_size) page_size (omega arith)) record {
    count = update_self c.valid (slot_of c page) _;
    is_page = h;
    placed = refl;
    same =
        rw (update_self c.valid (slot_of c page) (length (page_bytes v page)))
          (rw update_self (take-append_length (page_bytes v page) _));
  }

  fill_tags_self : (c : Cache S) (page : ℕ) → (fill src c page).tags (slot_of c page) ≡ page
  unfolding fill
  fill_tags_self c page = update_self c.tags (slot_of c page) page

  fill-IsCoherent :
      (v : View) (c : Cache S) (page : ℕ)
      → Shows src c.inner v
      → page < 2 ^ 52
      → IsCoherent v c
      → IsCoherent v (fill src c page)
  unfolding fill
  fill-IsCoherent v c page shows h co slot tagged = elim (Bool-cases (slot == slot_of c page)) [
    | inl here ↦
        subst (λ s. Holds v (fill src c page) s ((fill src c page).tags s))
          (sym ((==_iff slot (slot_of c page)).0 here))
          (rw (fill_tags_self c page) (fill-Holds v c page shows h))
    | inr other ↦
        let old = co slot (rw other at tagged) in
        record {
          count = rw other old.count;
          is_page = rw other old.is_page;
          placed = rw other old.placed;
          same = rw other old.same;
        }
  ]

  pub fetch_page-Fetched :
      (v : View) (c : Cache S) (page : ℕ)
      → Shows src c.inner v
      → page < 2 ^ 52
      → IsCoherent v c
      → Fetched v c (fetch_page src c page).0 (fetch_page src c page).1 page
  unfolding fetch_page
  fetch_page-Fetched v c page shows h co = elim (Bool-cases (c.tags (slot_of c page) == page)) [
    | inl hit ↦
        let tag = (==_iff (c.tags (slot_of c page)) page).0 hit in
        rw hit record {
          coherent = co;
          holds = subst (Holds v c (slot_of c page)) tag (co (slot_of c page) (omega arith));
          inner_kept = refl;
          returned = refl;
        }
    | inr miss ↦ rw miss record {
      coherent = fill-IsCoherent v c page shows h co;
      holds = fill-Holds v c page shows h;
      inner_kept = refl;
      returned = refl;
    }
  ]
