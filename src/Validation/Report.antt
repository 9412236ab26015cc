-- ===== src/Validation/Report.antt =====
-- The report over a whole dataset version: `validate_dataset_version`, with the pairs that the
-- duplicate check compares.
use defnex_mlops.Base.{
  inr, inl, Bool-cases, ℕ, [], ◌∷◌, Bool, List, Option, if◌then◌else◌, Result, count, false, ltb,
  none, true, ◌++◌, length, some, suc, ◌&&◌, ◌||◌, err, leb, ok, ◌-◌, ◌*◌, ◌≡◌,
}
use defnex_mlops.Text.{Text, same_text, strip}
use defnex_mlops.Json.{text, Json, get, Fields, content_key, role_key}
use defnex_mlops.Validation.{
  Patterns, HardError, iter_message_objects, h7_duplicate, h8_leakage, has_role, RaisedError,
  user_role, assistant_role, unicode_encode_error,
}
use defnex_mlops.Validation.Rules.{hard_errors}

-- A user and an assistant text, stripped.
abbrev pub Pair : Type 0
Pair = Text × Text

module _ (p : Patterns) where
  -- `user_content is None` and the role fits: the stripped text, else what there was.
  abbrev pub take_role : Text → Json → Text → Option Text → Option Text
  take_role name role s none = if has_role name role then some (strip p.is_space s) else none
  take_role name role s (some t) = some t

  -- The loop of `_normalized_pair`.
  unfoldable pub pair_from : Option Text → Option Text → List Fields → Option Pair
  pair_from (some u) (some a) [] = some (u, a)
  pair_from _ _ [] = none
  pair_from u a (m ∷ ms) = elim (get content_key m) [
    | text s ↦
        pair_from (take_role user_role (get role_key m) s u)
          (take_role assistant_role (get role_key m) s a) ms
    | _ ↦ none
  ]

  -- `_normalized_pair`
  unfoldable pub normalized_pair : Json → Option Pair
  normalized_pair v = pair_from none none (iter_message_objects v)

  unfoldable pub user_content_of : List Fields → Option Text
  user_content_of [] = none
  user_content_of (m ∷ ms) = elim (get content_key m) [
    | text s ↦
        if has_role user_role (get role_key m)
        then some (strip p.is_space s)
        else user_content_of ms
    | _ ↦ user_content_of ms
  ]

  -- `_user_content`
  unfoldable pub user_content : Json → Option Text
  user_content v = user_content_of (iter_message_objects v)

-- A record with the errors that were found in it.
pub record Row : Type 0 where
  pub value : Json
  pub errors : List HardError

abbrev pub add_error : HardError → Row → Row
add_error e r = record r { errors = r.errors ++ e ∷ [] }

unfoldable pub same_pair : Pair → Pair → Bool
same_pair (u, a) (u', a') = same_text u u' && same_text a a'

unfoldable pub seen_pair : Pair → List Pair → Bool
seen_pair x [] = false
seen_pair x (y ∷ ys) = same_pair x y || seen_pair x ys

unfoldable pub seen_text : Text → List Text → Bool
seen_text s [] = false
seen_text s (t ∷ ts) = same_text s t || seen_text s ts

module _ (p : Patterns) where
  -- `per_record_errors` at first: one row to a record.
  unfoldable pub check_records : List Json → Result RaisedError (List Row)
  check_records [] = ok []
  check_records (v ∷ vs) = elim (hard_errors p v) [
    | err e ↦ err e
    | ok es ↦ elim (check_records vs) [
      | err e ↦ err e
      | ok rows ↦ ok (record { value = v; errors = es } ∷ rows)
    ]
  ]

  unfoldable pub is_repeated : List Pair → Json → Bool
  is_repeated seen v = elim (normalized_pair p v) [ none ↦ false | some x ↦ seen_pair x seen ]

  unfoldable pub remember : List Pair → Json → List Pair
  remember seen v = elim (normalized_pair p v) [
    | none ↦ seen
    | some x ↦ if seen_pair x seen then seen else x ∷ seen
  ]

  -- H7: the loop over the records, with the pairs seen so far; and `duplicate_count`.
  unfoldable pub mark_duplicates : List Pair → List Row → List Row × ℕ
  mark_duplicates seen [] = ([], 0)
  mark_duplicates seen (r ∷ rows) =
      let (rest, n) = mark_duplicates (remember seen r.value) rows in
      if is_repeated seen r.value then (add_error h7_duplicate r ∷ rest, suc n) else (r ∷ rest, n)

  -- `eval_user_contents`
  unfoldable pub eval_user_contents : List Json → List Text
  eval_user_contents [] = []
  eval_user_contents (v ∷ vs) = elim (user_content p v) [
    | none ↦ eval_user_contents vs
    | some s ↦ s ∷ eval_user_contents vs
  ]

  unfoldable pub leaks : List Text → Json → Bool
  leaks evals v = elim (user_content p v) [ none ↦ false | some s ↦ seen_text s evals ]

  -- H8: the loop over the records; and `leakage_overlaps`.
  unfoldable pub mark_leaks : List Text → List Row → List Row × ℕ
  mark_leaks evals [] = ([], 0)
  mark_leaks evals (r ∷ rows) =
      let (rest, n) = mark_leaks evals rows in
      if leaks evals r.value then (add_error h8_leakage r ∷ rest, suc n) else (r ∷ rest, n)

pub data GateDecision : Type 0 where
  pass needs_review fail : GateDecision

-- `validation_gate_fail_ratio`, as a fraction. The code compares floats; the model compares the
-- fractions that they stand for.
pub record Ratio : Type 0 where
  pub numerator : ℕ
  pub denominator : ℕ

abbrev pub is_clean : Row → Bool
is_clean r = elim r.errors [ [] ↦ true | _ ∷ _ ↦ false ]

-- `gate_decision`, from the number of leaks, of invalid records and of all records.
unfoldable pub decide_gate : Ratio → ℕ → ℕ → ℕ → GateDecision
decide_gate ratio leaked invalid total =
    if ltb 0 leaked
    then fail
    else if ltb 0 invalid && leb (ratio.numerator * total) (invalid * ratio.denominator)
    then fail
    else if ltb 0 invalid
    then needs_review
    else pass

pub record ValidationReport : Type 0 where
  pub record_count : ℕ
  pub valid_count : ℕ
  pub invalid_count : ℕ
  pub duplicate_count : ℕ
  pub leakage_overlaps : ℕ
  pub rows : List Row
  pub gate_decision : GateDecision

module _ (p : Patterns) where
  unfoldable pub report_on : Ratio → List Json → List Row → ValidationReport
  report_on ratio evals checked =
      let (distinct, duplicates) = mark_duplicates p [] checked in
      let (rows, leaked) = mark_leaks p (eval_user_contents p evals) distinct in
      let valid = count is_clean rows in
      let total = length rows in
      record {
        record_count = total;
        valid_count = valid;
        invalid_count = total - valid;
        duplicate_count = duplicates;
        leakage_overlaps = leaked;
        rows = rows;
        gate_decision = decide_gate ratio leaked (total - valid) total;
      }

  -- What follows the content hash.
  unfoldable pub check_and_report :
      Ratio → List Json → List Json → Result RaisedError ValidationReport
  check_and_report ratio records evals = elim (check_records p records) [
    | err e ↦ err e
    | ok checked ↦ ok (report_on ratio evals checked)
  ]

  -- `validate_dataset_version`, which begins with the content hash of the records.
  unfoldable pub validate_dataset_version :
      Ratio → List Json → List Json → Result RaisedError ValidationReport
  validate_dataset_version ratio records evals =
      let result = check_and_report ratio records evals in
      if p.encodable records then result else err unicode_encode_error

  -- A report is one of records that can be hashed.
  pub validate-check_and_report :
      (ratio : Ratio) (records evals : List Json) (report : ValidationReport)
      → validate_dataset_version ratio records evals ≡ ok report
      → check_and_report ratio records evals ≡ ok report
  unfolding validate_dataset_version
  validate-check_and_report ratio records evals report h = elim (Bool-cases (p.encodable records)) [
    | inl e ↦ rw (e, validate_dataset_version) at h
    | inr e ↦ absurd (let h' = rw (e, validate_dataset_version) at h in cc h')
  ]
