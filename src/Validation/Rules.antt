-- ===== src/Validation/Rules.antt =====
-- The rules H1 to H6 and H9 of a record: `_hard_errors_for_record`.
use defnex_mlops.Base.{
  ℕ, [], ◌∷◌, Bool, List, Result, false, keep, leb, true, if◌then◌else◌, ◌==◌, ◌||◌, err, ok, ◌&&◌,
  ◌++◌, not, any, ◌≡◌, refl,
}
use defnex_mlops.Text.{Text, strip, codes, word_count, contains_text}
use defnex_mlops.Json.{
  text, object, Json, get, Fields, is_unhashable, object, role_key, content_key,
}
use defnex_mlops.Validation.{
  Patterns, HardError, has_role, messages_of, shape_errors, h0_record_not_object,
  h1_missing_required_field, misses_required, RaisedError, h0_messages_not_a_list, h2_invalid_role,
  is_valid_role, error_if, h0_metadata_not_an_object, h3_empty_content, assistant_role,
  h0_message_not_an_object, h4_below_min_length, unhashable_role, h5_empty_enumeration_artifact,
  h6_boilerplate_marker, h7_duplicate, h9_invalid_encoding, h8_leakage,
}

-- `_BOILERPLATE_PHRASES`
abbrev pub boilerplate_phrases : List Text
boilerplate_phrases =
    codes "baca juga"
    ∷ codes "baca selengkapnya"
    ∷ codes "klik di sini"
    ∷ codes "simak selengkapnya"
    ∷ codes "simak ulasan"
    ∷ []

-- `_CONTROL_CHAR_RE`
unfoldable pub is_control_char : ℕ → Bool
is_control_char c = leb c 8 || (c == 11 || (c == 12 || ((leb 14 c && leb c 31) || c == 127)))

unfoldable pub is_empty : Text → Bool
is_empty [] = true
is_empty (_ ∷ _) = false

unfoldable pub has_boilerplate : Text → Bool
has_boilerplate lowered = any (λ phrase. contains_text phrase lowered) boilerplate_phrases

module _ (p : Patterns) where
  -- H4, H5, H6 and H9, of a content that is not blank.
  unfoldable pub text_errors : Json → Text → List HardError
  text_errors role s =
      error_if (has_role assistant_role role && leb (word_count p.is_space s) 20)
        h4_below_min_length
      ++ (error_if (p.empty_enumeration s) h5_empty_enumeration_artifact
          ++ (error_if (has_boilerplate (p.lower s)) h6_boilerplate_marker
              ++ error_if (any is_control_char s) h9_invalid_encoding))

  -- H3, and then the rules on the text.
  unfoldable pub content_errors : Json → Json → List HardError
  content_errors role (text s) =
      if is_empty (strip p.is_space s) then h3_empty_content ∷ [] else text_errors role s
  content_errors role _ = h3_empty_content ∷ []

  -- One round of the loop over the messages.
  unfoldable pub message_errors : Fields → Result RaisedError (List HardError)
  message_errors m =
      let role = get role_key m in
      if is_unhashable role
      then err unhashable_role
      else ok (
          error_if (not (is_valid_role role)) h2_invalid_role
          ++ content_errors role (get content_key m))

  unfoldable pub messages_errors : List Fields → Result RaisedError (List HardError)
  messages_errors [] = ok []
  messages_errors (m ∷ ms) = elim (message_errors m) [
    | err e ↦ err e
    | ok es ↦ elim (messages_errors ms) [ err e ↦ err e | ok es' ↦ ok (es ++ es') ]
  ]

-- The place of a rule in the alphabetical order of the names.
unfoldable pub error_code : HardError → ℕ
error_code h0_record_not_object = 0
error_code h0_messages_not_a_list = 1
error_code h0_metadata_not_an_object = 2
error_code h0_message_not_an_object = 3
error_code h1_missing_required_field = 4
error_code h2_invalid_role = 5
error_code h3_empty_content = 6
error_code h4_below_min_length = 7
error_code h5_empty_enumeration_artifact = 8
error_code h6_boilerplate_marker = 9
error_code h7_duplicate = 10
error_code h8_leakage = 11
error_code h9_invalid_encoding = 12

unfoldable pub has_error : ℕ → List HardError → Bool
has_error k [] = false
has_error k (e ∷ es) = k == error_code e || has_error k es

abbrev pub rule_order : List HardError
rule_order =
    h1_missing_required_field ∷ h2_invalid_role ∷ h3_empty_content ∷ h4_below_min_length
    ∷ h5_empty_enumeration_artifact ∷ h6_boilerplate_marker ∷ h9_invalid_encoding ∷ []

-- `sorted(set(errors))`
unfoldable pub sorted_set : List HardError → List HardError
sorted_set es = keep (λ e. has_error (error_code e) es) rule_order

module _ (p : Patterns) where
  -- `_hard_errors_for_record` after the shape check.
  unfoldable pub rule_errors : Fields → Result RaisedError (List HardError)
  rule_errors d = elim (messages_errors p (messages_of d)) [
    | err e ↦ err e
    | ok es ↦ ok (sorted_set (error_if (misses_required d) h1_missing_required_field ++ es))
  ]

  -- `_hard_errors_for_record`
  unfoldable pub hard_errors : Json → Result RaisedError (List HardError)
  hard_errors (object d) = elim (shape_errors d) [ [] ↦ rule_errors d | e ∷ es ↦ ok (e ∷ es) ]
  hard_errors _ = ok (h0_record_not_object ∷ [])

  -- A dictionary of the right shape is judged by the rules, and any other by its shape alone.
  pub hard_errors-shaped :
      (d : Fields) → shape_errors d ≡ [] → hard_errors (object d) ≡ rule_errors d
  unfolding hard_errors
  hard_errors-shaped d h = rw (h, hard_errors) refl

  pub hard_errors-misshaped :
      (d : Fields) (e : HardError) (es : List HardError)
      → shape_errors d ≡ e ∷ es
      → hard_errors (object d) ≡ ok (e ∷ es)
  unfolding hard_errors
  hard_errors-misshaped d e es h = rw (h, hard_errors) refl
