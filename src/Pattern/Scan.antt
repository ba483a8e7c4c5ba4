-- ===== src/Pattern/Scan.antt =====
-- `PatternScanner` of src/core/src/PatternScanner.cpp: the ranges to search and the search.
pub mod Chunk
pub mod Range
pub mod Unique
use zircon_dumper.Prelude.{
  ℕ, zero, suc, ◌+◌, ◌-◌, ◌%◌, ◌^◌, min, max, Bool, true, false, not, ◌&&◌, ◌||◌, Option, none,
  some, List, [], ◌∷◌, ◌++◌, leb, ltb, ◌==◌, if◌then◌else◌, length, drop, get_or,
}
use zircon_dumper.Prelude.Preds.{Bytes}
use zircon_dumper.Memory.Source.{Source}
use zircon_dumper.Memory.Lookup.{
  ModuleInfo, RegionInfo, has_flag, protect_read, protect_execute, main_module, find_module,
}
use zircon_dumper.Pattern.{Pattern, matches_at}

-- `kChunkSize`, 1 MiB.
abbrev pub chunk_size : ℕ
chunk_size = 2 ^ 20

pub record ScanOptions : Type 0 where
  pub target : Bytes
  pub executable_only : Bool
  pub whole_process : Bool
  pub max_results : ℕ

pub record ScanRange : Type 0 where
  pub base : ℕ
  pub size : ℕ

-- The loop of BuildRanges for a whole process.
whole_ranges : Bool → List RegionInfo → List ScanRange
whole_ranges executable_only [] = []
whole_ranges executable_only (r ∷ rs) =
    let rest = whole_ranges executable_only rs in
    if not (has_flag r.protect protect_read)
    then rest
    else if executable_only && not (has_flag r.protect protect_execute)
    then rest
    else if r.size == 0
    then rest
    else record { base = r.base; size = r.size } ∷ rest

-- The loop of BuildRanges over the regions that meet a module.
module_ranges : Bool → ℕ → ℕ → List RegionInfo → List ScanRange
module_ranges executable_only module_lo module_hi [] = []
module_ranges executable_only module_lo module_hi (r ∷ rs) =
    let rest = module_ranges executable_only module_lo module_hi rs in
    let lo = r.base in
    let hi = (lo + r.size) % 2 ^ 64 in
    let clipped_lo = max lo module_lo in
    let clipped_hi = min hi module_hi in
    if leb hi module_lo || leb module_hi lo
    then rest
    else if executable_only && not (has_flag r.protect protect_execute)
    then rest
    else if not (has_flag r.protect protect_read)
    then rest
    else if leb clipped_hi clipped_lo
    then rest
    else record { base = clipped_lo; size = clipped_hi - clipped_lo } ∷ rest

unfoldable pub build_ranges : List ModuleInfo → List RegionInfo → ScanOptions → List ScanRange
unfolding whole_ranges module_ranges main_module find_module
build_ranges modules regions options =
    if options.whole_process
    then whole_ranges options.executable_only regions
    else elim (if length options.target == 0
        then main_module modules
        else find_module modules options.target) [
          | none ↦ []
          | some m ↦
              module_ranges options.executable_only m.base ((m.base + m.size) % 2 ^ 64) regions
        ]

-- `memchr` over the first `count` bytes: the index of the first `b`.
unfoldable pub memchr : ℕ → ℕ → Bytes → Option ℕ
memchr b zero xs = none
memchr b (suc count) [] = none
memchr b (suc count) (x ∷ xs) =
    if x == b then some 0 else elim (memchr b count xs) [ none ↦ none | some k ↦ some (suc k) ]

-- Taking one more hit: the hits, and whether `max_results` is reached.
abbrev pub full : ℕ → List ℕ → Bool
full max_results hits = not (max_results == 0) && leb max_results (length hits)

module _ (p : Pattern) (max_results : ℕ) where
  -- The loop over the bytes of a chunk: `address` gives the address of an offset in it. Each round
  -- moves `i` on, so `limit` rounds are enough. The flag says that Scan returns at once.
  unfoldable pub scan_chunk : (ℕ → ℕ) → Bytes → ℕ → ℕ → ℕ → List ℕ → List ℕ × Bool
  scan_chunk address buffer limit zero i hits = (hits, false)
  scan_chunk address buffer limit (suc f) i hits =
      let first = p.first_fixed in
      let first_byte = get_or p.bytes first 0 in
      let count = limit - i + length p.bytes - 1 - first in
      elim (memchr first_byte count (drop (i + first) buffer)) [
        | none ↦ (hits, false)
        | some k ↦
            let candidate = i + k in
            let hit = matches_at p.bytes p.mask (drop candidate buffer) in
            let hits' = if hit then hits ++ address candidate ∷ [] else hits in
            let rest = scan_chunk address buffer limit f (candidate + 1) hits' in
            if not (ltb i limit) || leb limit candidate
            then (hits, false)
            else if hit && full max_results hits'
            then (hits', true)
            else rest
      ]

module _ {S : Type 0} (src : Source S) (s : S) (p : Pattern) (max_results : ℕ) where
  -- The loop over one range. Each round moves `offset` on, so `size` rounds are enough.
  unfoldable pub scan_range : ScanRange → ℕ → ℕ → List ℕ → List ℕ × Bool
  scan_range range zero offset hits = (hits, false)
  scan_range range (suc f) offset hits =
      let pattern_size = length p.bytes in
      let overlap = pattern_size - 1 in
      let want = min (chunk_size + overlap) (range.size - offset) in
      let buffer = src.read s ((range.base + offset) % 2 ^ 64) want in
      let got = length buffer in
      let skip = scan_range range f (offset + (if got == 0 then chunk_size else got)) hits in
      let limit = got - pattern_size + 1 in
      let (hits', stop) =
        scan_chunk p max_results (λ i. (range.base + (offset + i)) % 2 ^ 64) buffer limit limit 0
          hits in
      let next = scan_range range f (offset + (got - overlap)) hits' in
      if not (ltb offset range.size)
      then (hits, false)
      else if ltb got pattern_size
      then skip
      else if stop
      then (hits', true)
      else if ltb got want
      then (hits', false)
      else next

  unfoldable pub scan_ranges : List ScanRange → List ℕ → List ℕ
  scan_ranges [] hits = hits
  scan_ranges (r ∷ rs) hits =
      let (hits', stop) = scan_range r r.size 0 hits in
      let rest = scan_ranges rs hits' in if stop then hits' else rest

unfoldable pub scan :
    {S : Type 0} → Source S → S → List ModuleInfo → List RegionInfo → Pattern → ScanOptions → List ℕ
scan src s modules regions p options =
    if length p.bytes == 0
    then []
    else scan_ranges src s p options.max_results (build_ranges modules regions options) []

-- What ScanFirst and ScanUnique make of the hits.
abbrev pub first_of_all : List ℕ → Option ℕ
first_of_all [] = none
first_of_all (a ∷ rest) = some a

abbrev pub only_one : List ℕ → Option ℕ
only_one [] = none
only_one (a ∷ []) = some a
only_one (a ∷ b ∷ rest) = none

unfoldable pub scan_first :
    {S : Type 0}
    → Source S
    → S
    → List ModuleInfo
    → List RegionInfo
    → Pattern
    → ScanOptions
    → Option ℕ
scan_first src s modules regions p options =
    first_of_all (scan src s modules regions p (record options { max_results = 1 }))

unfoldable pub scan_unique :
    {S : Type 0}
    → Source S
    → S
    → List ModuleInfo
    → List RegionInfo
    → Pattern
    → ScanOptions
    → Option ℕ
scan_unique src s modules regions p options =
    only_one (scan src s modules regions p (record options { max_results = 2 }))
