-- ===== src/Memory/Cache.antt =====
-- CachedMemorySource of src/core/src/CachedMemorySource.cpp: a direct-mapped cache of pages in
-- front of another source.
pub mod Coherent
pub mod Refine
pub mod Slots
pub mod Write
use Prim.Native.Nat.{bit_and}
use zircon_dumper.Prelude.{
  ℕ, zero, suc, ◌+◌, ◌-◌, ◌*◌, ◌/◌, ◌%◌, ◌^◌, min, max, Bool, true, false, Option, none, some, [],
  ◌∷◌, ◌++◌, length, take, drop, leb, ◌==◌, ◌⊎◌, inl, inr, if◌then◌else◌,
}
use zircon_dumper.Prelude.Preds.{Bytes}
use zircon_dumper.Memory.Source.{Source}

abbrev pub page_size : ℕ
page_size = 4096

abbrev pub invalid_tag : ℕ
invalid_tag = 2 ^ 64 - 1

-- The vectors `tags_`, `valid_` and `data_` by slot; a slot's data are `page_size` bytes.
pub record Cache (S : Type 0) : Type 0 where
  pub inner : S
  pub tags : ℕ → ℕ
  pub valid : ℕ → ℕ
  pub contents : ℕ → Bytes
  pub slot_mask : ℕ

abbrev pub update {ℓ} : {A : Type ℓ} → (ℕ → A) → ℕ → A → ℕ → A
update f k v j = if j == k then v else f j

-- `while (power * 2 <= slots) power *= 2;` with fuel.
unfoldable pub grow : ℕ → ℕ → ℕ → ℕ
grow zero slots power = power
grow (suc f) slots power =
    let more = grow f slots (power * 2) in if leb (power * 2) slots then more else power

-- The slots that a cache of `cache_bytes` bytes has.
unfoldable pub slot_count : ℕ → ℕ
slot_count cache_bytes = let slots = max (cache_bytes / page_size) 64 in grow slots slots 1

unfoldable pub zeros : ℕ → Bytes
zeros zero = []
zeros (suc n) = 0 ∷ zeros n

unfoldable pub make : {S : Type 0} → S → ℕ → Cache S
make s cache_bytes = record {
  inner = s;
  tags = λ _. invalid_tag;
  valid = λ _. 0;
  contents = λ _. zeros page_size;
  slot_mask = slot_count cache_bytes - 1;
}

abbrev pub slot_of : {S : Type 0} → Cache S → ℕ → ℕ
slot_of c page = bit_and page c.slot_mask

-- What a slot serves: nothing when the page read no byte.
abbrev pub served : {S : Type 0} → Cache S → ℕ → Option Bytes
served c slot = if c.valid slot == 0 then none else some (c.contents slot)

-- What a round of `Read` copies from the page at hand, and whether the loop goes on.
copy_part : {S : Type 0} → Cache S → ℕ → ℕ → ℕ → Option Bytes → Bytes × Bool
copy_part c page in_page want none = ([], false)
copy_part c page in_page want (some bytes) =
    let valid = c.valid (slot_of c page) in
    let available = min want (valid - in_page) in
    if leb valid in_page
    then ([], false)
    else (take available (drop in_page bytes), leb want available)

-- One round of the loop of `InvalidateRange`.
drop_page : {S : Type 0} → Cache S → ℕ → Cache S
drop_page c page =
    let slot = slot_of c page in
    record c { tags = if c.tags slot == page then update c.tags slot invalid_tag else c.tags }

drop_pages : {S : Type 0} → ℕ → ℕ → Cache S → Cache S
drop_pages zero page c = c
drop_pages (suc n) page c = drop_pages n (page + 1) (drop_page c page)

invalidate_range : {S : Type 0} → Cache S → ℕ → ℕ → Cache S
invalidate_range c addr size =
    let first = addr / page_size in
    let last = (addr + size + 2 ^ 64 - 1) % 2 ^ 64 / page_size in
    drop_pages (last + 1 - first) first c

module _ {S : Type 0} (src : Source S) where
  -- The inner read fills the front of the slot and leaves the rest as it was.
  fill : Cache S → ℕ → Cache S
  fill c page =
      let slot = slot_of c page in
      let got = src.read c.inner (page * page_size) page_size in
      record c {
        tags = update c.tags slot page;
        valid = update c.valid slot (length got);
        contents = update c.contents slot (got ++ drop (length got) (c.contents slot));
      }

  unfoldable pub fetch_page : Cache S → ℕ → Cache S × Option Bytes
  unfolding fill
  fetch_page c page =
      let slot = slot_of c page in
      let c' = fill c page in
      if c.tags slot == page then (c, served c slot) else (c', served c' slot)

  -- One round of the loop of `Read`, `done` of `size` bytes being copied.
  unfoldable pub round : Cache S → ℕ → ℕ → ℕ → Cache S × Bytes × Bool
  unfolding copy_part
  round c addr done size =
      let cur = (addr + done) % 2 ^ 64 in
      let page = cur / page_size in
      let in_page = cur % page_size in
      let want = min (size - done) (page_size - in_page) in
      let (c', found) = fetch_page c page in
      let (part, more) = copy_part c' page in_page want found in (c', part, more)

  -- Each round copies at least one byte or ends the loop, so `size` rounds are enough.
  unfoldable pub read_loop : ℕ → Cache S → ℕ → ℕ → ℕ → Cache S × Bytes
  unfolding round
  read_loop zero c addr done size = (c, [])
  read_loop (suc f) c addr done size =
      let (c', part, more) = round c addr done size in
      let rest = read_loop f c' addr (done + length part) size in
      if leb size done then (c, []) else if more then (rest.0, part ++ rest.1) else (c', part)

  unfoldable pub read : Cache S → ℕ → ℕ → Cache S × Bytes
  read c addr size = read_loop size c addr 0 size

  unfoldable pub invalidate : Cache S → Cache S
  invalidate c = record c { tags = λ _. invalid_tag; inner = src.invalidate c.inner }

  unfoldable pub write : Cache S → ℕ → Bytes → Cache S × Bool
  unfolding invalidate_range drop_pages drop_page
  write c addr bytes =
      let (s, done) = src.write c.inner addr bytes in
      let c' = record c { inner = s } in
      if done then (invalidate_range c' addr (length bytes), true) else (c', false)

  -- The calls that go through to the source behind.
  unfoldable pub enable_writes : Cache S → Bool → Cache S × Bool
  enable_writes c enable =
      let (s, enabled) = src.enable_writes c.inner enable in (record c { inner = s }, enabled)

  unfoldable pub rescan_modules : Cache S → Cache S
  rescan_modules c = record c { inner = src.rescan_modules c.inner }

  -- `MakeCached`: a source without live objects is handed back as it is.
  unfoldable pub make_cached : Option S → ℕ → Option (S ⊎ Cache S)
  make_cached none cache_bytes = none
  make_cached (some s) cache_bytes =
      if src.live_objects s then some (inr (make s cache_bytes)) else some (inl s)
