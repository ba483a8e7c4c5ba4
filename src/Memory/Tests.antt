-- ===== src/Memory/Tests.antt =====
-- Runs of the cache and of the reads over it, and the theorems at concrete inputs. The target is one
-- readable page, number 1, of zeros but for the cell at 4100.
use zircon_dumper.Prelude.{
  ℕ, ◌+◌, ◌/◌, ◌%◌, ◌≤◌, ◌<◌, ◌*◌, ◌≡◌, refl, true, false, none, some, List, [], ◌∷◌, arith, max,
  length, ◌==◌, if◌then◌else◌, ◌⊎◌,
}
use zircon_dumper.Prelude.Preds.{Bytes}
use zircon_dumper.Memory.Source.{Source, View, Shows, prefix_read}
use zircon_dumper.Memory.Lookup.{RegionInfo}
use zircon_dumper.Memory.CString.{read_cstring, read_cstring_lem, before_nul}
use zircon_dumper.Memory.Cache.{
  Cache, make, read, write, invalidate, slot_of, slot_count, page_size, grow, read_loop, fetch_page,
  zeros,
}
use zircon_dumper.Memory.Cache.Coherent.{IsCoherent}
use zircon_dumper.Memory.Cache.Refine.{IsPaged, read_sound, read-refines}
use zircon_dumper.Memory.Cache.Write.{read-write, read-invalidate}
use zircon_dumper.Memory.Cache.Slots.{slot_of-make}
use zircon_dumper.Prelude.Mask.{IsPower}

abbrev cell : ℕ
cell = 4100

-- The state is the value of the cell.
abbrev target_view : ℕ → View
target_view s x = if x / 4096 == 1 then some (if x == cell then s else 0) else none

abbrev last_byte : ℕ → Bytes → ℕ
last_byte s [] = s
last_byte s (b ∷ bs) = last_byte b bs

abbrev target : Source ℕ
target = record {
  read = λ s a n. prefix_read (target_view s) a n;
  write = λ s a bytes. (last_byte s bytes, true);
  enable_writes = λ s enable. (s, enable);
  invalidate = λ s. s;
  rescan_modules = λ s. s;
  live_objects = λ s. true;
}

target-Shows : (s : ℕ) → Shows target s (target_view s)
target-Shows s a n u = refl

target-IsPaged : (s : ℕ) → IsPaged (target_view s)
target-IsPaged s x y same gone = ground arith

abbrev empty_cache : Cache ℕ
empty_cache = make 7 0

empty-IsCoherent : IsCoherent (target_view 7) empty_cache
unfolding make
empty-IsCoherent slot alive = absurd (alive refl)

empty-inner : empty_cache.inner ≡ 7
unfolding make
empty-inner = refl

empty-Shows : Shows target empty_cache.inner (target_view 7)
unfolding make
empty-Shows a n u = refl

-- A read across the end of the page stops there.
read_end : (read target (make 7 0) 8190 5).1 ≡ 0 ∷ 0 ∷ []
unfolding read read_loop fetch_page make slot_count grow prefix_read zeros
read_end = refl

read-refines_example : (read target empty_cache 4099 3).1 ≡ target.read empty_cache.inner 4099 3
read-refines_example =
    read-refines target (target_view 7) empty_cache 4099 3 empty-Shows empty-IsCoherent
      (omega arith) (target-IsPaged 7)

read_sound_example :
    IsCoherent (target_view 7) (read target empty_cache 4099 3).0
    × ((read target empty_cache 4099 3).0.inner ≡ empty_cache.inner)
    × ((read target empty_cache 4099 3).1
        ≡ prefix_read (target_view 7) 4099 (length (read target empty_cache 4099 3).1))
read_sound_example =
    read_sound target (target_view 7) empty_cache 4099 3 empty-Shows empty-IsCoherent (omega arith)

-- The cache first holds the page with a 7 in the cell, and the write puts a 9 there.
abbrev warm : Cache ℕ
warm = (read target empty_cache 4099 3).0

written : (x : ℕ) → (x < cell) ⊎ (cell + 1 ≤ x) → target_view 9 x ≡ target_view 7 x
written x h = ground arith

read-write_example :
    IsCoherent (target_view 9) (write target warm cell (9 ∷ [])).0
    × ((read target (write target warm cell (9 ∷ [])).0 4099 3).1
        ≡ target.read (target.write warm.inner cell (9 ∷ [])).0 4099 3)
read-write_example =
    read-write target (target_view 7) (target_view 9) warm cell (9 ∷ []) 4099 3 read_sound_example.0
      (omega arith) (omega arith) refl (target-Shows 9) written (target-IsPaged 9) (omega arith)

read-invalidate_example :
    (read target (invalidate target empty_cache) 4099 3).1
    ≡ target.read (target.invalidate empty_cache.inner) 4099 3
read-invalidate_example =
    read-invalidate target (target_view 7) empty_cache 4099 3 empty-Shows (target-IsPaged 7)
      (omega arith)

abbrev big_cache : Cache ℕ
big_cache = make 7 300000

slot_of-make_example :
    (slot_of big_cache 5 ≡ 5 % slot_count 300000)
    × IsPower (slot_count 300000)
    × (slot_count 300000 ≤ max (300000 / page_size) 64)
    × (max (300000 / page_size) 64 < slot_count 300000 * 2)
slot_of-make_example = slot_of-make {S = ℕ} 7 300000 5

read_cstring_example :
    read_cstring target 7 4100 20 ≡ before_nul (prefix_read (target_view 7) 4100 20)
read_cstring_example =
    read_cstring_lem target 7 (target_view 7) 4100 20 (target-Shows 7) (omega arith)

abbrev two_regions : List RegionInfo
two_regions =
    record { base = 16; size = 8; protect = 1; is_image = false }
    ∷ record { base = 20; size = 8; protect = 5; is_image = true }
    ∷ []
