-- ===== src/Diff/Keeps.antt =====
-- What every call of Emit keeps of the report, the loops of src/diff/src/Diff.cpp over members keep.
use zircon_dumper.Prelude.{
  ℕ, Bool, true, false, Option, none, some, List, [], ◌∷◌, if◌then◌else◌, length, replicate,
}
use zircon_dumper.Prelude.Preds.{Bytes}
use zircon_dumper.Ir.{Property, Struct}
use zircon_dumper.Diff.{ChangeKind, DiffOptions, Report, emit}
use zircon_dumper.Diff.Members.{
  compare_property, Pairing, pair_property, property_loop, find_match, emit_gone, emit_fresh,
  renamed, rename_loop, emit_untaken, emit_all_gone, emit_all_fresh, emit_rest, diff_properties,
}
use zircon_dumper.Diff.Notes.{Noted, note}

-- What each call of Emit keeps of the report.
abbrev pub IsKept : DiffOptions → (Report → Type 0) → Type 0
IsKept options P =
    (kind : ChangeKind) (path member before after detail : Bytes) (r : Report)
    → P r
    → P (emit options kind path member before after detail r)

module _ (options : DiffOptions) (P : Report → Type 0) (keeps : IsKept options P) where
  pub note-keeps :
      (differs : Bool) (kind : ChangeKind) (path member before after detail : Bytes) (n : Noted)
      → P n.report
      → P (note options differs kind path member before after detail n).report
  unfolding note
  note-keeps true kind path member before after detail n p =
      keeps kind path member before after detail n.report p
  note-keeps false kind path member before after detail n p = p

  compare_property-keeps :
      (path : Bytes) (q now : Property) (n : Noted)
      → P n.report
      → P (compare_property options path q now n).report
  unfolding compare_property
  compare_property-keeps path q now n p = note-keeps _ _ path q.name _ _ _ _ (
      note-keeps _ _ path q.name _ _ _ _ (
        note-keeps _ _ path q.name _ _ _ _ (
          note-keeps _ _ path q.name _ _ _ _
            (note-keeps _ _ path q.name _ _ _ _ (note-keeps _ _ path q.name _ _ _ n p)))))

  pair_property-keeps :
      (path : Bytes) (q : Property) (now : Option Property) (s : Pairing Property)
      → P s.noted.report
      → P (pair_property options path q now s).noted.report
  unfolding pair_property
  pair_property-keeps path q none s p = p
  pair_property-keeps path q (some now) s p = compare_property-keeps path q now s.noted p

  property_loop-keeps :
      (after : Struct) (properties : List Property) (s : Pairing Property)
      → P s.noted.report
      → P (property_loop options after properties s).noted.report
  unfolding property_loop
  property_loop-keeps after [] s p = p
  property_loop-keeps after (q ∷ properties) s p =
      property_loop-keeps after properties _ (pair_property-keeps after.path q _ _ p)

  renamed-keeps :
      (before_path after_path : Bytes) (gone : Property) (m : Option (ℕ × Property))
      (taken : List Bool) (r : Report)
      → P r
      → P (renamed options before_path after_path gone m taken r).1
  unfolding renamed emit_gone
  renamed-keeps before_path after_path gone none taken r p = keeps _ _ _ _ _ _ r p
  renamed-keeps before_path after_path gone (some (i, now)) taken r p = keeps _ _ _ _ _ _ r p

  rename_loop-keeps :
      (before_path after_path : Bytes) (added removed : List Property) (taken : List Bool)
      (r : Report)
      → P r
      → P (rename_loop options before_path after_path added removed taken r).1
  unfolding rename_loop
  rename_loop-keeps before_path after_path added [] taken r p = p
  rename_loop-keeps before_path after_path added (gone ∷ removed) taken r p =
      rename_loop-keeps before_path after_path added removed _ _
        (renamed-keeps before_path after_path gone (find_match gone added taken 0) taken r p)

  emit_fresh-keeps :
      (b : Bool) (path : Bytes) (q : Property) (r : Report)
      → P r
      → P (if b then r else emit_fresh options path q r)
  unfolding emit_fresh
  emit_fresh-keeps true path q r p = p
  emit_fresh-keeps false path q r p = keeps _ _ _ _ _ _ r p

  emit_untaken-keeps :
      (path : Bytes) (added : List Property) (taken : List Bool) (r : Report)
      → P r
      → P (emit_untaken options path added taken r)
  unfolding emit_untaken
  emit_untaken-keeps path [] taken r p = p
  emit_untaken-keeps path (q ∷ added) [] r p = p
  emit_untaken-keeps path (q ∷ added) (t ∷ taken) r p =
      emit_untaken-keeps path added taken _ (emit_fresh-keeps t path q r p)

  emit_all_gone-keeps :
      (path : Bytes) (removed : List Property) (r : Report)
      → P r
      → P (emit_all_gone options path removed r)
  unfolding emit_all_gone emit_gone
  emit_all_gone-keeps path [] r p = p
  emit_all_gone-keeps path (q ∷ removed) r p =
      emit_all_gone-keeps path removed _ (keeps _ _ _ _ _ _ r p)

  emit_all_fresh-keeps :
      (path : Bytes) (added : List Property) (r : Report)
      → P r
      → P (emit_all_fresh options path added r)
  unfolding emit_all_fresh
  emit_all_fresh-keeps path [] r p = p
  emit_all_fresh-keeps path (q ∷ added) r p =
      emit_all_fresh-keeps path added _ (emit_fresh-keeps false path q r p)

  pub either-keeps : (b : Bool) (x y : Report) → P x → P y → P (if b then x else y)
  either-keeps true x y p q = p
  either-keeps false x y p q = q

  emit_rest-keeps :
      (before_path after_path : Bytes) (removed added : List Property) (r : Report)
      → P r
      → P (emit_rest options before_path after_path removed added r)
  unfolding emit_rest
  emit_rest-keeps before_path after_path removed added r p =
      either-keeps options.detect_renames _ _
        (emit_untaken-keeps after_path added _ _ (
          rename_loop-keeps before_path after_path added removed (replicate (length added) false) r
            p))
        (emit_all_fresh-keeps after_path added _ (emit_all_gone-keeps before_path removed r p))

  pub diff_properties-keeps :
      (before after : Struct) (r : Report) → P r → P (diff_properties options before after r).report
  unfolding diff_properties
  diff_properties-keeps before after r p =
      emit_rest-keeps before.path after.path _ _ _ (property_loop-keeps after before.properties _ p)
