-- ===== src/Validation/Raises.antt =====
-- When the validation of a dataset raises instead of reporting.
use defnex_mlops.Base.{
  [], ◌∷◌, Bool, List, Result, any, ◌≡◌, err, Bool-cases, false, inl, ok, inr, true, refl,
  List-cases, ◌++◌, ◌||◌, sym,
}
use defnex_mlops.Json.{object, Json, Fields, is_unhashable, get, role_key}
use defnex_mlops.Validation.{
  Patterns, h0_record_not_object, shape_errors, RaisedError, messages_of, unhashable_role,
  unicode_encode_error, HardError,
}
use defnex_mlops.Validation.Report.{
  check_and_report, validate_dataset_version, Ratio, check_records, report_on,
}
use defnex_mlops.Validation.Rules.{
  hard_errors, message_errors, messages_errors, rule_errors, hard_errors-shaped,
  hard_errors-misshaped,
}
use mathlib.Core.Path.{subst}

-- A record whose shape is accepted, with a message whose role is a list or a dictionary.
unfoldable pub has_unhashable_role : Json → Bool
has_unhashable_role (object d) = elim (shape_errors d) [
  | [] ↦ any (λ m. is_unhashable (get role_key m)) (messages_of d)
  | _ ∷ _ ↦ false
]
has_unhashable_role _ = false

-- The result is an error exactly if the flag is set.
abbrev pub RaisesIff : {A : Type 0} → Bool → Result RaisedError A → Type 0
RaisesIff true r = r ≡ err unhashable_role
RaisesIff {A} false r = (a : A) × (r ≡ ok a)

-- What the encoding decides first.
abbrev pub RaisesAs : {A : Type 0} → Bool → Bool → Result RaisedError A → Type 0
RaisesAs false unhashable r = r ≡ err unicode_encode_error
RaisesAs true unhashable r = RaisesIff unhashable r

raises_map :
    {A C : Type 0} (b : Bool) (r : Result RaisedError A) (f : A → C)
    → RaisesIff b r
    → RaisesIff b (elim r as (λ _. Result RaisedError C) [ err e ↦ err e | ok x ↦ ok (f x) ])
raises_map true r f h = rw h refl
raises_map false r f h = rw h.1 (_, refl)

-- Two results of which the first error is the error of both.
raises_or :
    {A B C : Type 0} (b c : Bool) (r : Result RaisedError A) (r' : Result RaisedError B)
    (f : A → B → C)
    → RaisesIff b r
    → RaisesIff c r'
    → RaisesIff (b || c) (elim r [
      | err e ↦ err e
      | ok x ↦ elim r' as (λ _. Result RaisedError C) [ err e ↦ err e | ok y ↦ ok (f x y) ]
    ])
raises_or true c r r' f h h' = rw h refl
raises_or false true r r' f h h' = rw (h.1, h') refl
raises_or false false r r' f h h' = rw (h.1, h'.1) (_, refl)

unhashable-shaped :
    (d : Fields)
    → shape_errors d ≡ []
    → has_unhashable_role (object d) ≡ any (λ m. is_unhashable (get role_key m)) (messages_of d)
unfolding has_unhashable_role
unhashable-shaped d h = rw (h, has_unhashable_role) refl

unhashable-misshaped :
    (d : Fields) (e : HardError) (es : List HardError)
    → shape_errors d ≡ e ∷ es
    → has_unhashable_role (object d) ≡ false
unfolding has_unhashable_role
unhashable-misshaped d e es h = rw (h, has_unhashable_role) refl

module _ (p : Patterns) where
  message_errors-RaisesIff :
      (m : Fields) → RaisesIff (is_unhashable (get role_key m)) (message_errors p m)
  unfolding message_errors
  message_errors-RaisesIff m = elim (Bool-cases (is_unhashable (get role_key m))) [
    | inl e ↦ rw e refl
    | inr e ↦ rw e (_, refl)
  ]

  messages_errors-RaisesIff :
      (ms : List Fields)
      → RaisesIff (any (λ m. is_unhashable (get role_key m)) ms) (messages_errors p ms)
  unfolding messages_errors
  messages_errors-RaisesIff [] = ([], refl)
  messages_errors-RaisesIff (m ∷ ms) =
      raises_or (is_unhashable (get role_key m)) (any (λ x. is_unhashable (get role_key x)) ms)
        (message_errors p m) (messages_errors p ms) (λ es es'. es ++ es')
        (message_errors-RaisesIff m) (messages_errors-RaisesIff ms)

  rule_errors-RaisesIff :
      (d : Fields)
      → RaisesIff (any (λ m. is_unhashable (get role_key m)) (messages_of d)) (rule_errors p d)
  unfolding rule_errors
  rule_errors-RaisesIff d =
      raises_map (any (λ m. is_unhashable (get role_key m)) (messages_of d)) _ _
        (messages_errors-RaisesIff (messages_of d))

  hard_errors-RaisesIff : (v : Json) → RaisesIff (has_unhashable_role v) (hard_errors p v)
  unfolding hard_errors has_unhashable_role
  hard_errors-RaisesIff (object d) = elim (List-cases (shape_errors d)) [
    | inl e ↦ rw (hard_errors-shaped p d e) (
        subst (λ b. RaisesIff b (rule_errors p d)) (sym (unhashable-shaped d e))
          (rule_errors-RaisesIff d))
    | inr (x, xs, e) ↦ rw (hard_errors-misshaped p d x xs e) (
        subst (λ b. RaisesIff b (ok (x ∷ xs))) (sym (unhashable-misshaped d x xs e)) (x ∷ xs, refl))
  ]
  hard_errors-RaisesIff v = (h0_record_not_object ∷ [], refl)

  check_records-RaisesIff :
      (vs : List Json) → RaisesIff (any has_unhashable_role vs) (check_records p vs)
  unfolding check_records
  check_records-RaisesIff [] = ([], refl)
  check_records-RaisesIff (v ∷ vs) =
      raises_or (has_unhashable_role v) (any has_unhashable_role vs) (hard_errors p v)
        (check_records p vs) (λ es rows. record { value = v; errors = es } ∷ rows)
        (hard_errors-RaisesIff v) (check_records-RaisesIff vs)

  check_and_report-RaisesIff :
      (ratio : Ratio) (records evals : List Json)
      → RaisesIff (any has_unhashable_role records) (check_and_report p ratio records evals)
  unfolding check_and_report
  check_and_report-RaisesIff ratio records evals =
      raises_map (any has_unhashable_role records) (check_records p records)
        (report_on p ratio evals) (check_records-RaisesIff records)

  -- The validation raises a `UnicodeEncodeError` exactly if the records cannot be encoded, and a
  -- `TypeError` exactly if they can and one that passes the shape checks has a message whose role is a
  -- list or a dictionary; on all other inputs it returns a report.
  pub validate_dataset_version-RaisesIff :
      (ratio : Ratio) (records evals : List Json)
      → RaisesAs
          (p.encodable records)
          (any has_unhashable_role records)
          (validate_dataset_version p ratio records evals)
  unfolding validate_dataset_version
  validate_dataset_version-RaisesIff ratio records evals = elim (Bool-cases (p.encodable records)) [
    | inl e ↦ rw (e, validate_dataset_version) (check_and_report-RaisesIff ratio records evals)
    | inr e ↦ rw (e, validate_dataset_version) refl
  ]
