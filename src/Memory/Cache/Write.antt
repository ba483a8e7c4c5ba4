-- ===== src/Memory/Cache/Write.antt =====
-- `Write`, `Invalidate` and `InvalidateRange` of src/core/src/CachedMemorySource.cpp.
use zircon_dumper.Prelude.{
  ℕ, zero, suc, ◌+◌, ◌-◌, ◌*◌, ◌/◌, ◌%◌, ◌^◌, ◌≤◌, ◌<◌, ◌≡◌, ◌≢◌, refl, sym, ap, true, arith,
  length, ◌==◌, ==_iff, subst, Bool-cases, inl, inr, ◌⊎◌, ◌∙◌,
}
use zircon_dumper.Prelude.Preds.{Bytes, IsU64}
use zircon_dumper.Memory.Source.{Source, View, Shows, prefix_read}
use zircon_dumper.Memory.Cache.{
  Cache, page_size, invalid_tag, slot_of, drop_page, drop_pages, invalidate_range, write,
  invalidate, read,
}
use zircon_dumper.Memory.Cache.Coherent.{page_bytes, IsCoherent}
use zircon_dumper.Memory.Cache.Refine.{IsPaged, read-refines}

-- Two views that agree from `a` on, for `n` bytes, read alike there.
prefix_read-cong :
    (v w : View) (a n : ℕ)
    → a + n ≤ 2 ^ 64
    → ((x : ℕ) → a ≤ x → x < a + n → w x ≡ v x)
    → prefix_read w a n ≡ prefix_read v a n
unfolding prefix_read
prefix_read-cong v w a zero h same = refl
prefix_read-cong v w a (suc zero) h same = ground (arith, same a (omega arith) (omega arith))
prefix_read-cong v w a (suc (suc n)) h same =
    let next : (a + 1) % 2 ^ 64 ≡ a + 1 = omega arith in
    let rest : prefix_read w (a + 1) (suc n) ≡ prefix_read v (a + 1) (suc n) =
      prefix_read-cong v w (a + 1) (suc n) (omega arith)
        (λ x lo hi. same x (omega arith) (omega arith)) in
    ground (arith, next, same a (omega arith) (omega arith), rest)

-- A slot after the loop of `InvalidateRange`: emptied, or as it was with a tag outside the range.
record Kept {S : Type 0} (c c' : Cache S) (slot first n : ℕ) : Type 0 where
  tag_same : c'.tags slot ≡ c.tags slot
  outside : (c.tags slot < first) ⊎ (first + n ≤ c.tags slot)

module _ {S : Type 0} where
  drop_pages_frame :
      (n first : ℕ) (c : Cache S)
      → ((drop_pages n first c).inner ≡ c.inner)
        × ((drop_pages n first c).valid ≡ c.valid)
        × ((drop_pages n first c).contents ≡ c.contents)
        × ((drop_pages n first c).slot_mask ≡ c.slot_mask)
  unfolding drop_pages drop_page
  drop_pages_frame zero first c = (refl, refl, refl, refl)
  drop_pages_frame (suc n) first c = drop_pages_frame n (first + 1) (drop_page c first)

  -- A slot that still has a tag after `drop_page` has the one that it had, and not that page's.
  drop_page-tags :
      (c : Cache S) (page slot : ℕ)
      → (c.tags slot ≢ invalid_tag → slot_of c (c.tags slot) ≡ slot)
      → (drop_page c page).tags slot ≢ invalid_tag
      → ((drop_page c page).tags slot ≡ c.tags slot) × (c.tags slot ≢ page)
  unfolding drop_page
  drop_page-tags c page slot placed alive =
      let at_slot : (c.tags slot ≢ invalid_tag) → c.tags slot ≡ page → slot_of c page ≡ slot =
        λ live e. subst (λ t. slot_of c t ≡ slot) e (placed live) in
      elim (Bool-cases (c.tags (slot_of c page) == page)) [
        | inl hit ↦ elim (Bool-cases (slot == slot_of c page)) [
          | inl here ↦ absurd ((rw (hit, here) at alive) refl)
          | inr other ↦
              let live : c.tags slot ≢ invalid_tag = rw (hit, other) at alive in
              rw (hit, other)
                (refl, λ e. cc ((==_iff slot (slot_of c page)).1 (sym (at_slot live e))))
        ]
        | inr miss ↦
            let live : c.tags slot ≢ invalid_tag = rw miss at alive in
            rw miss (
              refl,
              λ e.
                  let hit : c.tags (slot_of c page) ≡ page = ap c.tags (at_slot live e) ∙ e in
                  cc ((==_iff (c.tags (slot_of c page)) page).1 hit),
            )
      ]

  drop_page-placed :
      (c : Cache S) (page slot : ℕ)
      → (c.tags slot ≢ invalid_tag → slot_of c (c.tags slot) ≡ slot)
      → (drop_page c page).tags slot ≢ invalid_tag
      → slot_of c ((drop_page c page).tags slot) ≡ slot
  drop_page-placed c page slot placed alive =
      let (same, ne) = drop_page-tags c page slot placed alive in
      rw same (placed (rw same at alive))

  drop_pages-Kept :
      (n first : ℕ) (c : Cache S) (slot : ℕ)
      → (c.tags slot ≢ invalid_tag → slot_of c (c.tags slot) ≡ slot)
      → (drop_pages n first c).tags slot ≢ invalid_tag
      → Kept c (drop_pages n first c) slot first n
  unfolding drop_pages drop_page
  drop_pages-Kept zero first c slot placed alive = record { tag_same = refl; outside = omega arith }
  drop_pages-Kept (suc n) first c slot placed alive =
      let ih =
        drop_pages-Kept n (first + 1) (drop_page c first) slot
          (drop_page-placed c first slot placed) alive in
      let (same, ne) = drop_page-tags c first slot placed (rw ih.tag_same at alive) in
      record { tag_same = ih.tag_same ∙ same; outside = omega (arith, ih.outside, same, ne) }

  -- Dropping the pages of a range leaves a cache that agrees with any view that differs from the
  -- old one in that range alone.
  invalidate_range-IsCoherent :
      (v w : View) (c : Cache S) (addr size : ℕ)
      → 0 < size
      → addr + size ≤ 2 ^ 64
      → IsCoherent v c
      → ((x : ℕ) → (x < addr) ⊎ (addr + size ≤ x) → w x ≡ v x)
      → IsCoherent w (invalidate_range c addr size)
  unfolding invalidate_range
  invalidate_range-IsCoherent v w c addr size pos fits co same slot alive =
      let first = addr / page_size in
      let n = (addr + size + 2 ^ 64 - 1) % 2 ^ 64 / page_size + 1 - first in
      let k = drop_pages-Kept n first c slot (λ live. (co slot live).placed) alive in
      let (_, valid_same, contents_same, mask_same) = drop_pages_frame n first c in
      let old = co slot (rw k.tag_same at alive) in
      let page = c.tags slot in
      let out : (page < addr / page_size) ⊎ ((addr + size - 1) / page_size < page) =
        omega (arith, k.outside) in
      let bytes_same : page_bytes w page ≡ page_bytes v page =
        prefix_read-cong v w (page * page_size) page_size (omega (arith, old.is_page))
          (λ x lo hi. same x (omega (arith, out))) in
      rw k.tag_same record {
        count = rw (valid_same, bytes_same) old.count;
        is_page = old.is_page;
        placed = rw mask_same old.placed;
        same = rw (valid_same, contents_same, bytes_same) old.same;
      }

  with_inner-IsCoherent :
      (v : View) (c : Cache S) (s : S) → IsCoherent v c → IsCoherent v (record c { inner = s })
  with_inner-IsCoherent v c s co slot alive =
      let old = co slot alive in
      record { count = old.count; is_page = old.is_page; placed = old.placed; same = old.same }

module _ {S : Type 0} (src : Source S) where
  write-inner :
      (c : Cache S) (addr : ℕ) (bytes : Bytes)
      → (write src c addr bytes).0.inner ≡ (src.write c.inner addr bytes).0
  unfolding write invalidate_range
  write-inner c addr bytes = elim (Bool-cases (src.write c.inner addr bytes).1) [
    | inl done ↦
        rw done
          (drop_pages_frame
            ((addr + length bytes + 2 ^ 64 - 1) % 2 ^ 64 / page_size + 1 - addr / page_size)
            (addr / page_size) (record c { inner = (src.write c.inner addr bytes).0 })).0
    | inr refused ↦ rw refused
  ]

  write-IsCoherent :
      (v w : View) (c : Cache S) (addr : ℕ) (bytes : Bytes)
      → IsCoherent v c
      → 0 < length bytes
      → addr + length bytes ≤ 2 ^ 64
      → (src.write c.inner addr bytes).1 ≡ true
      → ((x : ℕ) → (x < addr) ⊎ (addr + length bytes ≤ x) → w x ≡ v x)
      → IsCoherent w (write src c addr bytes).0
  unfolding write
  write-IsCoherent v w c addr bytes co pos fits ok same = rw ok (
      invalidate_range-IsCoherent v w (record c { inner = (src.write c.inner addr bytes).0 }) addr
        (length bytes) pos fits (with_inner-IsCoherent v c _ co) same)

  -- Let every slot of the cache that has a tag hold what the source showed in that page, and let a
  -- write of at least one byte, whose range does not wrap at 2 ^ 64, succeed and change what the
  -- source shows in the written range alone, with pages that are then readable as a whole or not at
  -- all. Then every slot that has a tag holds what the source shows now, and a read through the
  -- cache returns what the source now returns.
  pub read-write :
      (v w : View) (c : Cache S) (addr : ℕ) (bytes : Bytes) (a n : ℕ)
      → IsCoherent v c
      → 0 < length bytes
      → addr + length bytes ≤ 2 ^ 64
      → (src.write c.inner addr bytes).1 ≡ true
      → Shows src (src.write c.inner addr bytes).0 w
      → ((x : ℕ) → (x < addr) ⊎ (addr + length bytes ≤ x) → w x ≡ v x)
      → IsPaged w
      → IsU64 a
      → IsCoherent w (write src c addr bytes).0
        × ((read src (write src c addr bytes).0 a n).1
            ≡ src.read (src.write c.inner addr bytes).0 a n)
  read-write v w c addr bytes a n co pos fits ok shows same paged u =
      let s = (src.write c.inner addr bytes).0 in
      let co' : IsCoherent w (write src c addr bytes).0 =
        write-IsCoherent v w c addr bytes co pos fits ok same in
      let e = write-inner c addr bytes in
      (
        co',
        read-refines src w (write src c addr bytes).0 a n (rw e shows) co' u paged
            ∙ ap (λ (t : S). src.read t a n) e,
      )

  invalidate-IsCoherent : (v : View) (c : Cache S) → IsCoherent v (invalidate src c)
  unfolding invalidate
  invalidate-IsCoherent v c slot alive = absurd (alive refl)

  invalidate-inner : (c : Cache S) → (invalidate src c).inner ≡ src.invalidate c.inner
  unfolding invalidate
  invalidate-inner c = refl

  -- Let the source, after the Invalidate of its own, show pages that are readable as a whole or not
  -- at all. Then a read after `Invalidate` returns what the source now returns, whatever stale bytes
  -- the slots held before: no agreement of the cache with the source is asked for.
  pub read-invalidate :
      (v : View) (c : Cache S) (a n : ℕ)
      → Shows src (src.invalidate c.inner) v
      → IsPaged v
      → IsU64 a
      → (read src (invalidate src c) a n).1 ≡ src.read (src.invalidate c.inner) a n
  read-invalidate v c a n shows paged u =
      let e = invalidate-inner c in
      read-refines src v (invalidate src c) a n (rw e shows) (invalidate-IsCoherent v c) u paged
      ∙ ap (λ (t : S). src.read t a n) e
