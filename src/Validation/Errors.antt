-- ===== src/Validation/Errors.antt =====
-- The rules that the errors of a record may name, and lists of errors that are empty.
use defnex_mlops.Base.{
  [], ◌∷◌, List, ◌≡◌, Bool, ok, true, arith, ◌++◌, false, refl, ◌&&◌, Bool-cases, inl, inr, not,
  Result-cases,
}
use defnex_mlops.Json.{text, Fields, Json, get, content_key, role_key, is_unhashable}
use defnex_mlops.Validation.{
  h9_invalid_encoding, Patterns, HardError, is_valid_role, h0_record_not_object,
  h0_messages_not_a_list, h0_metadata_not_an_object, h0_message_not_an_object,
  h1_missing_required_field, h2_invalid_role, h3_empty_content, h4_below_min_length,
  h5_empty_enumeration_artifact, h6_boilerplate_marker, h7_duplicate, h8_leakage, error_if,
}
use defnex_mlops.Validation.Rules.{
  message_errors, sorted_set, text_errors, has_error, error_code, rule_order, is_empty,
  content_errors, messages_errors,
}
use defnex_mlops.Text.{Text, strip}

-- The rules that a list of errors may name.
unfoldable pub all_rules : List HardError → Bool
all_rules [] = true
all_rules (e ∷ es) = has_error (error_code e) rule_order && all_rules es

pub all_rules-append :
    (xs ys : List HardError)
    → all_rules xs ≡ true
    → all_rules ys ≡ true
    → all_rules (xs ++ ys) ≡ true
unfolding all_rules
all_rules-append [] ys hx hy = hy
all_rules-append (x ∷ xs) ys hx hy = ground (arith, all_rules-append xs ys)

-- The sorted set of a list of rules is empty only if the list is.
pub sorted_set-nil : (es : List HardError) → all_rules es ≡ true → sorted_set es ≡ [] → es ≡ []
unfolding all_rules sorted_set has_error error_code
sorted_set-nil [] h k = refl
sorted_set-nil (h0_record_not_object ∷ es) h k = cc
sorted_set-nil (h0_messages_not_a_list ∷ es) h k = cc
sorted_set-nil (h0_metadata_not_an_object ∷ es) h k = cc
sorted_set-nil (h0_message_not_an_object ∷ es) h k = cc
sorted_set-nil (h1_missing_required_field ∷ es) h k = cc
sorted_set-nil (h2_invalid_role ∷ es) h k = ground arith
sorted_set-nil (h3_empty_content ∷ es) h k = ground arith
sorted_set-nil (h4_below_min_length ∷ es) h k = ground arith
sorted_set-nil (h5_empty_enumeration_artifact ∷ es) h k = ground arith
sorted_set-nil (h6_boilerplate_marker ∷ es) h k = ground arith
sorted_set-nil (h7_duplicate ∷ es) h k = cc
sorted_set-nil (h8_leakage ∷ es) h k = cc
sorted_set-nil (h9_invalid_encoding ∷ es) h k = ground arith

pub error_if_rules :
    (c : Bool) (e : HardError)
    → has_error (error_code e) rule_order ≡ true
    → all_rules (error_if c e) ≡ true
unfolding all_rules
error_if_rules true e h = rw h refl
error_if_rules false e h = refl

pub error_if-nil :
    (c : Bool) (e : HardError) (es : List HardError)
    → error_if c e ++ es ≡ []
    → (c ≡ false) × (es ≡ [])
error_if-nil true e es h = cc
error_if-nil false e es h = (refl, h)

pub append_nil : (xs ys : List HardError) → xs ++ ys ≡ [] → (xs ≡ []) × (ys ≡ [])
append_nil [] ys h = (refl, h)
append_nil (x ∷ xs) ys h = cc

module _ (p : Patterns) where
  text_errors_rules : (role : Json) (s : Text) → all_rules (text_errors p role s) ≡ true
  unfolding text_errors has_error error_code
  text_errors_rules role s = all_rules-append _ _ (error_if_rules _ h4_below_min_length refl) (
      all_rules-append _ _ (error_if_rules _ h5_empty_enumeration_artifact refl) (
        all_rules-append _ _ (error_if_rules _ h6_boilerplate_marker refl)
          (error_if_rules _ h9_invalid_encoding refl)))

  content_errors_rules : (role v : Json) → all_rules (content_errors p role v) ≡ true
  unfolding content_errors all_rules has_error error_code
  content_errors_rules role (text s) = elim (Bool-cases (is_empty (strip p.is_space s))) [
    | inl e ↦ rw e refl
    | inr e ↦ rw e (text_errors_rules role s)
  ]
  content_errors_rules role v = refl

  message_errors_rules :
      (m : Fields) (es : List HardError) → message_errors p m ≡ ok es → all_rules es ≡ true
  unfolding message_errors has_error error_code
  message_errors_rules m es h = elim (Bool-cases (is_unhashable (get role_key m))) [
    | inl e ↦ absurd (let h' = rw e at h in cc h')
    | inr e ↦
        let found =
          error_if (not (is_valid_role (get role_key m))) h2_invalid_role
          ++ content_errors p (get role_key m) (get content_key m) in
        let same : found ≡ es = ground arith in
        rw (← same) (
          all_rules-append _ _ (error_if_rules _ h2_invalid_role refl)
            (content_errors_rules (get role_key m) (get content_key m)))
  ]

  pub messages_errors_rules :
      (ms : List Fields) (es : List HardError) → messages_errors p ms ≡ ok es → all_rules es ≡ true
  unfolding messages_errors all_rules
  messages_errors_rules [] es h = let e : [] ≡ es = ground arith in rw (← e) refl
  messages_errors_rules (m ∷ ms) es h = elim (Result-cases (message_errors p m)) [
    | inr (e, f) ↦ absurd (let h' = rw (f, messages_errors) at h in cc h')
    | inl (xs, f) ↦ elim (Result-cases (messages_errors p ms)) [
      | inr (e, g) ↦ absurd (let h' = rw (f, g, messages_errors) at h in cc h')
      | inl (ys, g) ↦
          let h' = rw (f, g, messages_errors) at h in
          let e : xs ++ ys ≡ es = ground arith in
          rw (← e)
            (all_rules-append xs ys (message_errors_rules m xs f) (messages_errors_rules ms ys g))
    ]
  ]
