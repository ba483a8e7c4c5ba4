-- ===== src/Diff/Notes.antt =====
-- What src/diff/src/Diff.cpp keeps while it compares the members of two types: differences, and
-- members by their names.
use zircon_dumper.Prelude.{
  ℕ, ◌+◌, Bool, false, Option, none, some, List, [], ◌∷◌, if◌then◌else◌, get_elem?,
}
use zircon_dumper.Prelude.Preds.{Bytes}
use zircon_dumper.Prelude.Text.{same_bytes, lookup, assign_key}
use zircon_dumper.Diff.{ChangeKind, DiffOptions, Report, emit, padded_hex}

-- The report, and `unchanged`.
pub record Noted : Type 0 where
  pub report : Report
  pub unchanged : Bool

-- `if (differs) { unchanged = false; Emit(...); }`.
unfoldable pub note :
    DiffOptions → Bool → ChangeKind → Bytes → Bytes → Bytes → Bytes → Bytes → Noted → Noted
note options differs kind path member before after detail n =
    if differs
    then record {
      report = emit options kind path member before after detail n.report;
      unchanged = false;
    }
    else n

-- The counts of `taken` and `seen`; a name that is missing has the count 0.
abbrev pub Counts : Type 0
Counts = List (Bytes × ℕ)

unfoldable pub or_zero : Option ℕ → ℕ
or_zero none = 0
or_zero (some n) = n

unfoldable pub count_of : Counts → Bytes → ℕ
count_of counts name = or_zero (lookup counts name)

-- `counts[name]++`.
unfoldable pub bump : Counts → Bytes → Counts
bump counts name = assign_key counts name (count_of counts name + 1)

-- The members of a name, as the maps by name have them.
unfoldable pub named_as : {A : Type 0} → (A → Bytes) → Bytes → List A → List A
named_as name_of name [] = []
named_as name_of name (x ∷ xs) =
    let rest = named_as name_of name xs in if same_bytes (name_of x) name then x ∷ rest else rest

abbrev pub flags_text : ℕ → ℕ → Bytes
flags_text width flags = b'0' ∷ b'x' ∷ padded_hex width flags

-- A member after, behind the members of its name that are paired.
unfoldable pub or_added : {A : Type 0} → A → List A → Option A → List A
or_added p rest none = p ∷ rest
or_added p rest (some q) = rest

-- The members after that are past those of their name before.
unfoldable pub added_loop : {A : Type 0} → (A → Bytes) → List A → List A → Counts → List A
added_loop name_of before [] seen = []
added_loop name_of before (p ∷ after) seen =
    or_added p (added_loop name_of before after (bump seen (name_of p)))
      (get_elem? (named_as name_of (name_of p) before) (count_of seen (name_of p)))
