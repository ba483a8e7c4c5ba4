-- ===== src/Pattern/Scan/Unique.antt =====
-- `Scan`, `ScanFirst` and `ScanUnique` of src/core/src/PatternScanner.cpp against a test of every
-- position of every range.
use zircon_dumper.Prelude.{
  ℕ, ◌<◌, ◌≡◌, refl, ap, ◌∙◌, Bool, false, List, [], ◌∷◌, ◌++◌, arith, length, Bool-cases, inl, inr,
  append_assoc, append-nil, ◌==◌,
}
use zircon_dumper.Prelude.Preds.{All}
use zircon_dumper.Memory.Source.{Source, View, Shows}
use zircon_dumper.Memory.Lookup.{ModuleInfo, RegionInfo}
use zircon_dumper.Pattern.{Pattern}
use zircon_dumper.Pattern.Scan.{
  ScanOptions, ScanRange, build_ranges, scan_ranges, scan, first_of_all, only_one, scan_first,
  scan_unique,
}
use zircon_dumper.Pattern.Scan.Chunk.{IsPattern, push_all}
use zircon_dumper.Pattern.Scan.Range.{IsReadable, range_hits, scan_range_lem, push_all-append}

-- Every position at which the pattern matches, range by range.
unfoldable pub all_hits : Pattern → View → List ScanRange → List ℕ
all_hits p v [] = []
all_hits p v (r ∷ rs) = range_hits p v r ++ all_hits p v rs

-- With no limit every hit is taken.
push_all_unlimited : (xs hits : List ℕ) → push_all 0 hits xs ≡ (hits ++ xs, false)
unfolding push_all
push_all_unlimited [] hits = rw append-nil
push_all_unlimited (x ∷ xs) hits = push_all_unlimited xs (hits ++ x ∷ []) ∙ rw append_assoc

push_all_first : (xs : List ℕ) → first_of_all (push_all 1 [] xs).0 ≡ first_of_all xs
unfolding push_all
push_all_first [] = refl
push_all_first (x ∷ xs) = refl

push_all_unique : (xs : List ℕ) → only_one (push_all 2 [] xs).0 ≡ only_one xs
unfolding push_all
push_all_unique [] = refl
push_all_unique (x ∷ []) = refl
push_all_unique (x ∷ y ∷ xs) = refl

module _ {S : Type 0} (src : Source S) (s : S) (p : Pattern) (v : View) (shows : Shows src s v)
    (ok : IsPattern p) (inside : p.first_fixed < length p.bytes) where
  scan_ranges_lem :
      (max_results : ℕ) (ranges : List ScanRange) (hits : List ℕ)
      → All (IsReadable v) ranges
      → scan_ranges src s p max_results ranges hits
        ≡ (push_all max_results hits (all_hits p v ranges)).0
  unfolding scan_ranges all_hits
  scan_ranges_lem max_results [] hits readable = unfold push_all in refl
  scan_ranges_lem max_results (r ∷ rs) hits readable =
      let found = push_all max_results hits (range_hits p v r) in
      let ih = scan_ranges_lem max_results rs found.0 readable.1 in
      rw
        (
          scan_range_lem src s p max_results v r shows ok inside readable.0 hits,
          push_all-append max_results (range_hits p v r) (all_hits p v rs) hits,
        )
        (elim (Bool-cases found.1) [ inl stop ↦ rw stop | inr go ↦ rw go ih ])

  module _ (modules : List ModuleInfo) (regions : List RegionInfo) (options : ScanOptions)
      (readable : All (IsReadable v) (build_ranges modules regions options)) where
    -- The hits of Scan are those of a test of every position, taken up to `max_results`.
    scan-push_all :
        scan src s modules regions p options
        ≡ (push_all options.max_results [] (all_hits p v (build_ranges modules regions options))).0
    unfolding scan
    scan-push_all =
        let some_bytes : (length p.bytes == 0) ≡ false = ground arith in
        rw some_bytes (scan_ranges_lem options.max_results _ [] readable)

build_ranges_same :
    (modules : List ModuleInfo) (regions : List RegionInfo) (options : ScanOptions) (n : ℕ)
    → build_ranges modules regions (record options { max_results = n })
      ≡ build_ranges modules regions options
unfolding build_ranges
build_ranges_same modules regions options n = refl

-- Let the source show `v`, let every range that is searched be readable from its first byte to its
-- last, and let the pattern be well formed with a fixed byte. With no limit on the results, Scan returns the address of every position at which the pattern matches, range by range
-- and in ascending order, and nothing else: no match at the border of two chunks is lost or taken
-- twice.
pub scan-all_hits :
    {S : Type 0} (src : Source S) (s : S) (modules : List ModuleInfo) (regions : List RegionInfo)
    (p : Pattern) (options : ScanOptions) (v : View)
    → Shows src s v
    → IsPattern p
    → p.first_fixed < length p.bytes
    → options.max_results ≡ 0
    → All (IsReadable v) (build_ranges modules regions options)
    → scan src s modules regions p options ≡ all_hits p v (build_ranges modules regions options)
scan-all_hits src s modules regions p options v shows ok inside unlimited readable =
    let e = scan-push_all src s p v shows ok inside modules regions options readable in
    let hits = all_hits p v (build_ranges modules regions options) in
    e
    ∙ ap (λ m. (push_all m [] hits).0) unlimited
    ∙ ap (λ (r : List ℕ × Bool). r.0) (push_all_unlimited hits [])

-- Let the source show `v`, let every range that is searched be readable from its first byte to its
-- last, and let the pattern be well formed with a fixed byte. Then ScanFirst returns the first
-- address at which the pattern matches, if there is one.
pub scan_first_lem :
    {S : Type 0} (src : Source S) (s : S) (modules : List ModuleInfo) (regions : List RegionInfo)
    (p : Pattern) (options : ScanOptions) (v : View)
    → Shows src s v
    → IsPattern p
    → p.first_fixed < length p.bytes
    → All (IsReadable v) (build_ranges modules regions options)
    → scan_first src s modules regions p options
      ≡ first_of_all (all_hits p v (build_ranges modules regions options))
unfolding scan_first
scan_first_lem src s modules regions p options v shows ok inside readable =
    let same = build_ranges_same modules regions options 1 in
    let e =
      scan-push_all src s p v shows ok inside modules regions (record options { max_results = 1 })
        (rw same readable) in
    ap first_of_all e ∙ push_all_first _ ∙ ap (λ r. first_of_all (all_hits p v r)) same

-- Let the source show `v`, let every range that is searched be readable from its first byte to its
-- last, and let the pattern be well formed with a fixed byte. Then ScanUnique returns an address
-- exactly when the pattern matches at one position in all, and then it is that position's: it never
-- picks one of several matches.
pub scan_unique_lem :
    {S : Type 0} (src : Source S) (s : S) (modules : List ModuleInfo) (regions : List RegionInfo)
    (p : Pattern) (options : ScanOptions) (v : View)
    → Shows src s v
    → IsPattern p
    → p.first_fixed < length p.bytes
    → All (IsReadable v) (build_ranges modules regions options)
    → scan_unique src s modules regions p options
      ≡ only_one (all_hits p v (build_ranges modules regions options))
unfolding scan_unique
scan_unique_lem src s modules regions p options v shows ok inside readable =
    let same = build_ranges_same modules regions options 2 in
    let e =
      scan-push_all src s p v shows ok inside modules regions (record options { max_results = 2 })
        (rw same readable) in
    ap only_one e ∙ push_all_unique _ ∙ ap (λ r. only_one (all_hits p v r)) same
