-- ===== src/Validation/Accepted.antt =====
-- The rules as one condition on each part of a record.
use defnex_mlops.Base.{
  [], ◌∷◌, List, ◌≡◌, ok, true, arith, ◌++◌, false, refl, ◌<◌, any, Bool-cases, inl, inr, not,
  List-cases, ◌↔◌, Result-cases, sym, ◌∙◌, ap,
}
use defnex_mlops.Json.{
  object, array, text, Fields, Json, get, content_key, role_key, is_unhashable, boolean, number,
  null,
}
use defnex_mlops.Validation.{
  Patterns, shape_errors, misses_required, is_valid_role, messages_of, has_role, assistant_role,
  h1_missing_required_field, h2_invalid_role, error_if,
}
use defnex_mlops.Validation.Rules.{
  hard_errors, message_errors, sorted_set, text_errors, has_error, error_code, is_empty,
  is_control_char, content_errors, has_boilerplate, messages_errors, rule_errors,
  hard_errors-shaped, hard_errors-misshaped,
}
use defnex_mlops.Text.{Text, strip, word_count}
use defnex_mlops.Validation.Errors.{
  sorted_set-nil, error_if_rules, error_if-nil, append_nil, all_rules-append, messages_errors_rules,
}

valid_role_hashable : (v : Json) → is_valid_role v ≡ true → is_unhashable v ≡ false
unfolding is_valid_role has_role is_unhashable
valid_role_hashable null h = refl
valid_role_hashable (boolean b) h = refl
valid_role_hashable (number n) h = refl
valid_role_hashable (text s) h = refl
valid_role_hashable (array xs) h = cc
valid_role_hashable (object d) h = cc

module _ (p : Patterns) where
  -- A message on which no rule finds an error.
  pub record IsAcceptedMessage (m : Fields) : Type 0 where
    pub content : Text
    pub is_text : get content_key m ≡ text content
    pub known_role : is_valid_role (get role_key m) ≡ true
    pub not_blank : is_empty (strip p.is_space content) ≡ false
    pub long_enough :
        has_role assistant_role (get role_key m) ≡ true → 20 < word_count p.is_space content
    pub no_artifact : p.empty_enumeration content ≡ false
    pub no_boilerplate : has_boilerplate (p.lower content) ≡ false
    pub no_control : any is_control_char content ≡ false

  abbrev pub AllAccepted : List Fields → Type 0
  AllAccepted [] = Unit
  AllAccepted (m ∷ ms) = IsAcceptedMessage m × AllAccepted ms

  -- A record on which no rule finds an error.
  pub record IsAccepted (v : Json) : Type 0 where
    pub fields : Fields
    pub is_dictionary : v ≡ object fields
    pub shaped : shape_errors fields ≡ []
    pub complete : misses_required fields ≡ false
    pub clean : AllAccepted (messages_of fields)

  text_errors-nil :
      (role : Json) (s : Text)
      → text_errors p role s ≡ []
      → ((has_role assistant_role role ≡ true → 20 < word_count p.is_space s)
          × (p.empty_enumeration s ≡ false)
          × (has_boilerplate (p.lower s) ≡ false)
          × (any is_control_char s ≡ false))
  unfolding text_errors
  text_errors-nil role s h =
      (λ is_assistant. ground arith, ground arith, ground arith, ground arith)

  nil-text_errors :
      (role : Json) (s : Text)
      → (has_role assistant_role role ≡ true → 20 < word_count p.is_space s)
      → p.empty_enumeration s ≡ false
      → has_boilerplate (p.lower s) ≡ false
      → any is_control_char s ≡ false
      → text_errors p role s ≡ []
  unfolding text_errors
  nil-text_errors role s long a b c = elim (Bool-cases (has_role assistant_role role)) [
    | inl e ↦ let more = long e in ground arith
    | inr e ↦ ground arith
  ]

  content_errors-nil :
      (role v : Json)
      → content_errors p role v ≡ []
      → (s : Text) × (v ≡ text s)
        × (is_empty (strip p.is_space s) ≡ false)
        × (text_errors p role s ≡ [])
  unfolding content_errors
  content_errors-nil role (text s) h = elim (Bool-cases (is_empty (strip p.is_space s))) [
    | inl e ↦ absurd (let h' = rw e at h in cc h')
    | inr e ↦ (s, refl, e, rw e at h)
  ]
  content_errors-nil role null h = cc
  content_errors-nil role (boolean b) h = cc
  content_errors-nil role (number n) h = cc
  content_errors-nil role (array xs) h = cc
  content_errors-nil role (object d) h = cc

  message_errors-IsAcceptedMessage : (m : Fields) → message_errors p m ≡ ok [] → IsAcceptedMessage m
  unfolding message_errors
  message_errors-IsAcceptedMessage m h = elim (Bool-cases (is_unhashable (get role_key m))) [
    | inl e ↦ absurd (let h' = rw e at h in cc h')
    | inr e ↦
        let h' = rw e at h in
        let found =
          error_if-nil (not (is_valid_role (get role_key m))) h2_invalid_role
            (content_errors p (get role_key m) (get content_key m)) (ground arith) in
        let (s, is, filled, none_left) =
          content_errors-nil (get role_key m) (get content_key m) found.1 in
        let (long, enumerated, boiler, control) = text_errors-nil (get role_key m) s none_left in
        record {
          content = s;
          is_text = is;
          known_role = ground arith;
          not_blank = filled;
          long_enough = long;
          no_artifact = enumerated;
          no_boilerplate = boiler;
          no_control = control;
        }
  ]

  content_errors_clean :
      (role v : Json) (s : Text)
      → v ≡ text s
      → is_empty (strip p.is_space s) ≡ false
      → text_errors p role s ≡ []
      → content_errors p role v ≡ []
  unfolding content_errors
  content_errors_clean role v s e filled none_left = rw e (rw filled none_left)

  IsAcceptedMessage-message_errors : (m : Fields) → IsAcceptedMessage m → message_errors p m ≡ ok []
  unfolding message_errors
  IsAcceptedMessage-message_errors m c =
      let role = get role_key m in
      let texts =
        nil-text_errors role c.content c.long_enough c.no_artifact c.no_boilerplate c.no_control in
      let contents =
        content_errors_clean role (get content_key m) c.content c.is_text c.not_blank texts in
      rw (valid_role_hashable role c.known_role, c.known_role, contents) refl

  messages_errors-AllAccepted : (ms : List Fields) → messages_errors p ms ≡ ok [] → AllAccepted ms
  unfolding messages_errors
  messages_errors-AllAccepted [] h = tt
  messages_errors-AllAccepted (m ∷ ms) h = elim (Result-cases (message_errors p m)) [
    | inr (e, f) ↦ absurd (let h' = rw (f, messages_errors) at h in cc h')
    | inl (es, f) ↦ elim (Result-cases (messages_errors p ms)) [
      | inr (e, g) ↦ absurd (let h' = rw (f, g, messages_errors) at h in cc h')
      | inl (es', g) ↦
          let h' = rw (f, g, messages_errors) at h in
          let (first, rest) = append_nil es es' (ground arith) in
          (
            message_errors-IsAcceptedMessage m (f ∙ ap ok first),
            messages_errors-AllAccepted ms (g ∙ ap ok rest),
          )
    ]
  ]

  AllAccepted-messages_errors : (ms : List Fields) → AllAccepted ms → messages_errors p ms ≡ ok []
  unfolding messages_errors
  AllAccepted-messages_errors [] h = refl
  AllAccepted-messages_errors (m ∷ ms) h =
      rw
        (
          IsAcceptedMessage-message_errors m h.0,
          AllAccepted-messages_errors ms h.1,
          messages_errors,
        )
        refl

  rule_errors-clean :
      (d : Fields)
      → rule_errors p d ≡ ok []
      → (misses_required d ≡ false) × AllAccepted (messages_of d)
  unfolding rule_errors has_error error_code
  rule_errors-clean d h = elim (Result-cases (messages_errors p (messages_of d))) [
    | inr (e, f) ↦ absurd (let h' = rw (f, rule_errors) at h in cc h')
    | inl (es, f) ↦
        let h' = rw (f, rule_errors) at h in
        let all_of = error_if (misses_required d) h1_missing_required_field ++ es in
        let empty_set : sorted_set all_of ≡ [] = ground arith in
        let empty_list =
          sorted_set-nil all_of
            (all_rules-append _ _
              (error_if_rules (misses_required d) h1_missing_required_field refl)
              (messages_errors_rules p (messages_of d) es f))
            empty_set in
        let found = error_if-nil (misses_required d) h1_missing_required_field es empty_list in
        (found.0, messages_errors-AllAccepted (messages_of d) (f ∙ ap ok found.1))
  ]

  clean-rule_errors :
      (d : Fields)
      → misses_required d ≡ false
      → AllAccepted (messages_of d)
      → rule_errors p d ≡ ok []
  unfolding rule_errors sorted_set has_error
  clean-rule_errors d h c = rw (AllAccepted-messages_errors (messages_of d) c, h, rule_errors) refl

  hard_errors-IsAccepted : (v : Json) → hard_errors p v ≡ ok [] → IsAccepted v
  unfolding hard_errors
  hard_errors-IsAccepted (object d) h = elim (List-cases (shape_errors d)) [
    | inl e ↦
        let (whole, clean) = rule_errors-clean d (sym (hard_errors-shaped p d e) ∙ h) in
        record { fields = d; is_dictionary = refl; shaped = e; complete = whole; clean = clean }
    | inr (x, xs, e) ↦ absurd (let h' = sym (hard_errors-misshaped p d x xs e) ∙ h in cc h')
  ]
  hard_errors-IsAccepted null h = cc
  hard_errors-IsAccepted (boolean b) h = cc
  hard_errors-IsAccepted (number n) h = cc
  hard_errors-IsAccepted (text s) h = cc
  hard_errors-IsAccepted (array xs) h = cc

  -- The rules find nothing in a record exactly if all of their conditions pass.
  pub hard_errors_accepts : (v : Json) → (hard_errors p v ≡ ok []) ↔ IsAccepted v
  hard_errors_accepts v = (
    hard_errors-IsAccepted v,
    λ c.
        rw c.is_dictionary
          (hard_errors-shaped p c.fields c.shaped ∙ clean-rule_errors c.fields c.complete c.clean),
  )
