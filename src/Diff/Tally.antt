-- ===== src/Diff/Tally.antt =====
-- The changes and the counts of the report of src/diff/src/Diff.cpp, and HasBreakingChanges.
use zircon_dumper.Prelude.{
  ◌≤◌, ap, not, ◌&&◌, ℕ, ◌+◌, ◌≡◌, refl, sym, ◌∙◌, Bool, true, false, ◌||◌, List, [], ◌∷◌, ◌++◌,
  leb, ltb, ◌==◌, if◌then◌else◌, arith, Bool-cases, inl, inr,
}
use zircon_dumper.Prelude.Preds.{All, All-append}
use zircon_dumper.Ir.{Dump}
use zircon_dumper.Diff.{
  Severity, info, low, medium, high, critical, rank, ChangeKind, kind_rank, default_severity,
  Change, DiffOptions, Report, push, left_out, emit, has_breaking_changes, is_addition,
}
use zircon_dumper.Diff.Index.{insert_sorted, sort_by, comes_first}
use zircon_dumper.Diff.Keeps.{IsKept}
use zircon_dumper.Diff.Keys.{sort_by-All}
use zircon_dumper.Diff.Names.{is_added, is_removed, kinds_named}
use zircon_dumper.Diff.Reported.{diff-keeps}
use zircon_dumper.Diff.Whole.{sort_changes, diff}

-- How many changes pass a test.
unfoldable pub count_changes : (Change → Bool) → List Change → ℕ
count_changes test [] = 0
count_changes test (c ∷ changes) =
    if test c then count_changes test changes + 1 else count_changes test changes

count_changes-append :
    (test : Change → Bool) (xs ys : List Change)
    → count_changes test (xs ++ ys) ≡ count_changes test xs + count_changes test ys
unfolding count_changes
count_changes-append test [] ys = omega arith
count_changes-append test (x ∷ xs) ys = elim (Bool-cases (test x)) [
  | inl e ↦ rw e (omega (arith, count_changes-append test xs ys))
  | inr e ↦ rw e (count_changes-append test xs ys)
]

count_changes-insert_sorted :
    (test : Change → Bool) (less : Change → Change → Bool) (x : Change) (xs : List Change)
    → count_changes test (insert_sorted less x xs) ≡ count_changes test (x ∷ xs)
unfolding count_changes insert_sorted
count_changes-insert_sorted test less x [] = refl
count_changes-insert_sorted test less x (y ∷ ys) = elim (Bool-cases (less y x)) [
  | inr e ↦ rw e refl
  | inl e ↦
      rw (e, count_changes-insert_sorted test less x ys)
        (elim (Bool-cases (test x)) [
          | inl t ↦ elim (Bool-cases (test y)) [ inl u ↦ rw (t, u) refl | inr u ↦ rw (t, u) refl ]
          | inr t ↦ elim (Bool-cases (test y)) [ inl u ↦ rw (t, u) refl | inr u ↦ rw (t, u) refl ]
        ])
]

count_changes-sort_by :
    (test : Change → Bool) (less : Change → Change → Bool) (xs : List Change)
    → count_changes test (sort_by less xs) ≡ count_changes test xs
unfolding count_changes sort_by
count_changes-sort_by test less [] = refl
count_changes-sort_by test less (x ∷ xs) =
    count_changes-insert_sorted test less x (sort_by less xs)
    ∙ rw (count_changes, count_changes-sort_by test less xs) refl

-- The tests of the keys of `by_severity` and `by_kind`.
abbrev pub is_severity : Severity → Change → Bool
is_severity s c = rank s == rank c.severity

abbrev pub is_kind : ChangeKind → Change → Bool
is_kind k c = kind_rank k == kind_rank c.kind

-- What a change has to be, by the options and by the name of its kind: it is not below the minimum,
-- it is not an addition where additions are not asked for, an addition breaks nothing, and what is
-- removed is high or critical.
pub record IsWanted (options : DiffOptions) (c : Change) : Type 0 where
  pub at_least : rank options.minimum ≤ rank c.severity
  pub no_addition : options.include_additions ≡ false → is_added c.kind ≡ false
  pub addition : is_added c.kind ≡ true → rank c.severity ≡ 0
  pub removal : is_removed c.kind ≡ true → 3 ≤ rank c.severity

-- The counts are those of the changes, and each change is wanted.
pub record IsTallied (options : DiffOptions) (r : Report) : Type 0 where
  pub severities : (s : Severity) → r.by_severity s ≡ count_changes (is_severity s) r.changes
  pub kinds : (k : ChangeKind) → r.by_kind k ≡ count_changes (is_kind k) r.changes
  pub all_wanted : All (IsWanted options) r.changes

tally_more :
    (b : Bool) (n : ℕ) (test : Change → Bool) (c : Change) (changes : List Change)
    → n ≡ count_changes test changes
    → b ≡ test c
    → (if b then n + 1 else n) ≡ count_changes test (changes ++ c ∷ [])
unfolding count_changes
tally_more true n test c changes e t =
    let one : count_changes test (c ∷ []) ≡ 1 = rw (count_changes, sym t) refl in
    omega (arith, e, count_changes-append test changes (c ∷ []), one)
tally_more false n test c changes e t =
    let one : count_changes test (c ∷ []) ≡ 0 = rw (count_changes, sym t) refl in
    omega (arith, e, count_changes-append test changes (c ∷ []), one)

push-IsTallied :
    (options : DiffOptions) (c : Change) (r : Report)
    → IsWanted options c
    → IsTallied options r
    → IsTallied options (push c r)
unfolding push
push-IsTallied options c r wanted t = record {
  severities = λ s. tally_more _ _ (is_severity s) c r.changes (t.severities s) refl;
  kinds = λ k. tally_more _ _ (is_kind k) c r.changes (t.kinds k) refl;
  all_wanted = All-append (IsWanted options) r.changes (c ∷ []) t.all_wanted (wanted, tt);
}

kept_out :
    (below : Bool) (kind : ChangeKind) (include : Bool)
    → include ≡ false
    → (below || (not include && is_addition kind)) ≡ false
    → is_addition kind ≡ false
kept_out true kind include e kept = absurd (ground (arith, kept))
kept_out false kind false e kept = kept
kept_out false kind true e kept = absurd (ground (arith, e))

IsWanted-kind :
    (options : DiffOptions) (c : Change)
    → c.severity ≡ default_severity c.kind
    → left_out options c.kind ≡ false
    → IsWanted options c
unfolding left_out
IsWanted-kind options c same kept =
    let (named, lowest, breaking) = kinds_named c.kind in
    let severity : rank c.severity ≡ rank (default_severity c.kind) =
      ap (λ (s : Severity). rank s) same in
    record {
      at_least = ground (arith, kept, severity);
      no_addition =
          λ none_asked. sym named ∙ kept_out _ c.kind options.include_additions none_asked kept;
      addition = λ added. ground (arith, lowest, added, severity);
      removal = λ removed. ground (arith, breaking, removed, severity);
    }

emit-IsTallied : (options : DiffOptions) → IsKept options (IsTallied options)
unfolding emit
emit-IsTallied options kind path member before after detail r t =
    elim (Bool-cases (left_out options kind)) [
      | inl e ↦ rw e t
      | inr e ↦ rw e (push-IsTallied options _ r (IsWanted-kind options _ refl e) t)
    ]

sort_changes-IsTallied :
    (options : DiffOptions) (r : Report) → IsTallied options r → IsTallied options (sort_changes r)
unfolding sort_changes
sort_changes-IsTallied options r t = record {
  severities =
      λ s. t.severities s ∙ sym (count_changes-sort_by (is_severity s) comes_first r.changes);
  kinds = λ k. t.kinds k ∙ sym (count_changes-sort_by (is_kind k) comes_first r.changes);
  all_wanted = sort_by-All comes_first (IsWanted options) r.changes t.all_wanted;
}

-- Of any two dumps: `by_severity` and `by_kind` count the changes of the report, none is below the
-- minimum asked for, and none is of a kind whose name ends in _added where additions are not asked
-- for. A change of such a kind has the lowest severity, and one whose kind ends in _removed is high or
-- critical.
pub diff-IsTallied :
    (before after : Dump) (options : DiffOptions)
    → IsTallied options (diff before after options).report
unfolding count_changes
diff-IsTallied before after options =
    diff-keeps options (IsTallied options) (emit-IsTallied options) before after
      (sort_changes-IsTallied options)
      (record { severities = λ s. refl; kinds = λ k. refl; all_wanted = tt })

-- Whether a change is high or critical.
unfoldable pub any_breaking : List Change → Bool
any_breaking [] = false
any_breaking (c ∷ changes) = leb (rank high) (rank c.severity) || any_breaking changes

breaking_step :
    (s : Severity) (h k : ℕ) (rest : Bool)
    → (ltb 0 h || ltb 0 k) ≡ rest
    → (ltb 0 (if rank high == rank s then h + 1 else h)
        || ltb 0 (if rank critical == rank s then k + 1 else k))
      ≡ (leb (rank high) (rank s) || rest)
unfolding rank
breaking_step info h k rest e = e
breaking_step low h k rest e = e
breaking_step medium h k rest e = e
breaking_step high h k rest e = ground arith
breaking_step critical h k rest e = ground arith

breaking_counts :
    (changes : List Change)
    → (ltb 0 (count_changes (is_severity high) changes)
        || ltb 0 (count_changes (is_severity critical) changes))
      ≡ any_breaking changes
unfolding any_breaking count_changes
breaking_counts [] = refl
breaking_counts (c ∷ changes) =
    breaking_step c.severity _ _ (any_breaking changes) (breaking_counts changes)

-- Of any two dumps, HasBreakingChanges says whether the report has a change that is high or critical.
pub has_breaking_changes-diff :
    (before after : Dump) (options : DiffOptions)
    → has_breaking_changes (diff before after options).report
      ≡ any_breaking (diff before after options).report.changes
unfolding has_breaking_changes
has_breaking_changes-diff before after options =
    let t = diff-IsTallied before after options in
    rw (t.severities high, t.severities critical)
      (breaking_counts (diff before after options).report.changes)
