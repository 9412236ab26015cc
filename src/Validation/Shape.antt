-- ===== src/Validation/Shape.antt =====
-- The H0 errors against an independent description of a record of the right shape.
use defnex_mlops.Base.{
  Bool, true, false, List, [], ◌∷◌, ◌≡◌, ◌↔◌, ◌⊎◌, arith, refl, inl, inr, none, some, any, keep,
  Bool-cases, Option-cases, List-cases, Result, Result-cases, ok, err, not, sym, ◌∙◌, ◌++◌,
}
use mathlib.Core.Path.{subst}
use defnex_mlops.Json.{
  Json, Items, Fields, null, boolean, number, text, array, object, nil, cons, get, get_field,
  is_array, is_object, messages_key, metadata_key,
}
use defnex_mlops.Validation.{
  misses_required, h1_missing_required_field, Patterns, HardError, RaisedError, messages_of,
  shape_errors, all_objects, mistyped, h0_record_not_object, h0_messages_not_a_list,
  h0_metadata_not_an_object, h0_message_not_an_object, error_if,
}
use defnex_mlops.Validation.Rules.{
  error_code, has_error, hard_errors, rule_errors, messages_errors, sorted_set, rule_order,
  hard_errors-shaped, hard_errors-misshaped,
}
use defnex_mlops.Validation.Clean.{IsCleanRecord, hard_errors_iff}
use defnex_mlops.Validation.FieldLaws.{get-found, shape-messages, shape-objects}

abbrev pub is_h0 : HardError → Bool
is_h0 h0_record_not_object = true
is_h0 h0_messages_not_a_list = true
is_h0 h0_metadata_not_an_object = true
is_h0 h0_message_not_an_object = true
is_h0 _ = false

-- Whether the errors of a record say that its shape is wrong.
abbrev pub is_misshapen : Result RaisedError (List HardError) → Bool
is_misshapen (ok es) = any is_h0 es
is_misshapen (err _) = false

abbrev pub AllObjects : Items → Type 0
AllObjects nil = Unit
AllObjects (cons v rest) = ((m : Fields) × (v ≡ object m)) × AllObjects rest

-- A dictionary whose messages, if it has the field, are a list of dictionaries, and whose metadata, if
-- it has the field, are a dictionary.
pub record IsShaped (v : Json) : Type 0 where
  pub fields : Fields
  pub is_dictionary : v ≡ object fields
  pub messages :
      (get_field messages_key fields ≡ none)
      ⊎ ((items : Items) × (get_field messages_key fields ≡ some (array items)) × AllObjects items)
  pub metadata :
      (get_field metadata_key fields ≡ none)
      ⊎ ((m : Fields) × (get_field metadata_key fields ≡ some (object m)))

objects-AllObjects : (items : Items) → all_objects items ≡ true → AllObjects items
unfolding all_objects is_object
objects-AllObjects nil h = tt
objects-AllObjects (cons (object m) rest) h = ((m, refl), objects-AllObjects rest (ground arith))
objects-AllObjects (cons null rest) h = cc
objects-AllObjects (cons (boolean b) rest) h = cc
objects-AllObjects (cons (number n) rest) h = cc
objects-AllObjects (cons (text s) rest) h = cc
objects-AllObjects (cons (array xs) rest) h = cc

AllObjects-objects : (items : Items) → AllObjects items → all_objects items ≡ true
unfolding all_objects is_object
AllObjects-objects nil a = refl
AllObjects-objects (cons v rest) ((m, e), a) = rw (e, AllObjects-objects rest a) refl

array_value : (v : Json) → not (is_array v) ≡ false → (items : Items) × (v ≡ array items)
unfolding is_array
array_value (array items) h = (items, refl)
array_value null h = cc
array_value (boolean b) h = cc
array_value (number n) h = cc
array_value (text s) h = cc
array_value (object d) h = cc

object_value : (v : Json) → not (is_object v) ≡ false → (m : Fields) × (v ≡ object m)
unfolding is_object
object_value (object m) h = (m, refl)
object_value null h = cc
object_value (boolean b) h = cc
object_value (number n) h = cc
object_value (text s) h = cc
object_value (array xs) h = cc

shape-metadata :
    (d : Fields) → shape_errors d ≡ [] → mistyped (get_field metadata_key d) is_object ≡ false
unfolding shape_errors
shape-metadata d h =
    let a = shape-messages d h in
    elim (Bool-cases (mistyped (get_field metadata_key d) is_object)) [
      | inl e ↦ absurd (let h' = rw (shape_errors, a, e) at h in cc h')
      | inr e ↦ e
    ]

shape_errors-IsShaped : (d : Fields) → shape_errors d ≡ [] → IsShaped (object d)
shape_errors-IsShaped d h = record {
  fields = d;
  is_dictionary = refl;
  messages = elim (Option-cases (get_field messages_key d)) [
    | inl e ↦ inl e
    | inr (v, e) ↦
        let typed = shape-messages d h in
        let (items, same) = array_value v (rw e at typed) in
        let there = rw same at e in
        let has_list = get-found messages_key d (array items) there in
        inr (items, there, objects-AllObjects items (shape-objects d items has_list h))
  ];
  metadata = elim (Option-cases (get_field metadata_key d)) [
    | inl e ↦ inl e
    | inr (v, e) ↦
        let typed = shape-metadata d h in
        let (m, same) = object_value v (rw e at typed) in inr (m, rw same at e)
  ];
}

metadata_typed :
    (d : Fields)
    → (get_field metadata_key d ≡ none)
      ⊎ ((m : Fields) × (get_field metadata_key d ≡ some (object m)))
    → mistyped (get_field metadata_key d) is_object ≡ false
unfolding is_object
metadata_typed d (inl e) = rw e refl
metadata_typed d (inr (m, e)) = rw e refl

IsShaped-shape_errors : (v : Json) (c : IsShaped v) → shape_errors c.fields ≡ []
unfolding shape_errors is_array get
IsShaped-shape_errors v c =
    let d = c.fields in
    let typed = metadata_typed d c.metadata in
    elim c.messages [
      | inl e ↦ rw (shape_errors, e, typed, get, e) refl
      | inr (items, e, a) ↦
          let g = get-found messages_key d (array items) e in
          let objects = AllObjects-objects items a in rw (shape_errors, e, typed, g, objects) refl
    ]

any-keep :
    (q f : HardError → Bool) (es : List HardError) → any q es ≡ false → any q (keep f es) ≡ false
any-keep q f [] h = refl
any-keep q f (e ∷ es) h =
    let rest = any-keep q f es (ground arith) in
    elim (Bool-cases (f e)) [ inl k ↦ rw k (ground (arith, rest)) | inr k ↦ rw k rest ]

-- The errors of a shape are H0 errors.
items_h0 :
    (v : Json) (e : HardError) (es : List HardError)
    → (elim v [
      | array items ↦ error_if (not (all_objects items)) h0_message_not_an_object
      | _ ↦ []
    ])
      ≡ e ∷ es
    → is_h0 e ≡ true
items_h0 (array items) e es h = elim (Bool-cases (all_objects items)) [
  | inl a ↦ absurd (let h' = rw a at h in cc h')
  | inr a ↦
      let h' = rw a at h in
      let first : h0_message_not_an_object ≡ e = ground arith in
      subst (λ x. is_h0 x ≡ true) first refl
]
items_h0 null e es h = cc
items_h0 (boolean b) e es h = cc
items_h0 (number n) e es h = cc
items_h0 (text s) e es h = cc
items_h0 (object d) e es h = cc

shape_errors_h0 :
    (d : Fields) (e : HardError) (es : List HardError) → shape_errors d ≡ e ∷ es → is_h0 e ≡ true
unfolding shape_errors
shape_errors_h0 d e es h = elim (Bool-cases (mistyped (get_field messages_key d) is_array)) [
  | inl a ↦
      let h' = rw (shape_errors, a) at h in
      let first : h0_messages_not_a_list ≡ e = ground arith in
      subst (λ x. is_h0 x ≡ true) first refl
  | inr a ↦ elim (Bool-cases (mistyped (get_field metadata_key d) is_object)) [
    | inl b ↦
        let h' = rw (shape_errors, a, b) at h in
        let first : h0_metadata_not_an_object ≡ e = ground arith in
        subst (λ x. is_h0 x ≡ true) first refl
    | inr b ↦ items_h0 (get messages_key d) e es (rw (shape_errors, a, b) at h)
  ]
]

module _ (p : Patterns) where
  rules_shapely : (d : Fields) → is_misshapen (rule_errors p d) ≡ false
  unfolding rule_errors sorted_set
  rules_shapely d = elim (Result-cases (messages_errors p (messages_of d))) [
    | inl (es, f) ↦
        let found = error_if (misses_required d) h1_missing_required_field ++ es in
        rw (f, rule_errors) (any-keep is_h0 (λ e. has_error (error_code e) found) rule_order refl)
    | inr (e, f) ↦ rw (f, rule_errors) refl
  ]

  misshapen_iff : (v : Json) → (is_misshapen (hard_errors p v) ≡ false) ↔ IsShaped v
  unfolding hard_errors
  misshapen_iff (object d) = elim (List-cases (shape_errors d)) [
    | inl e ↦ (λ _. shape_errors-IsShaped d e, λ _. rw (hard_errors-shaped p d e) (rules_shapely d))
    | inr (x, xs, e) ↦ (
      λ h. absurd (
          let h' = rw (hard_errors-misshaped p d x xs e) at h in
          let is = shape_errors_h0 d x xs e in ground arith),
      λ c. absurd (
          let dictionary = c.is_dictionary in
          let same : d ≡ c.fields = ground arith in
          let none_found = IsShaped-shape_errors (object d) c in
          let none_here = subst (λ f. shape_errors f ≡ []) (sym same) none_found in
          let no = sym e ∙ none_here in cc no),
    )
  ]
  misshapen_iff null = (λ h. cc, λ c. absurd (let e = c.is_dictionary in cc e))
  misshapen_iff (boolean b) = (λ h. cc, λ c. absurd (let e = c.is_dictionary in cc e))
  misshapen_iff (number n) = (λ h. cc, λ c. absurd (let e = c.is_dictionary in cc e))
  misshapen_iff (text s) = (λ h. cc, λ c. absurd (let e = c.is_dictionary in cc e))
  misshapen_iff (array xs) = (λ h. cc, λ c. absurd (let e = c.is_dictionary in cc e))

  -- The rules find nothing in a record exactly if it is clean: a dictionary with an id, with metadata
  -- that name the source dataset and the source id, and with a list of messages that is not empty, of
  -- which every one has a known role and a text that is not blank, shows no artifact, phrase of a news
  -- site or control character, and has more than twenty words if it is the assistant's. They find no
  -- error of the shape exactly in a dictionary whose messages, if it has them, are a list of
  -- dictionaries, and whose metadata, if it has them, are a dictionary.
  pub hard_errors-IsShaped :
      (v : Json)
      → ((hard_errors p v ≡ ok []) ↔ IsCleanRecord p v)
        × ((is_misshapen (hard_errors p v) ≡ false) ↔ IsShaped v)
  hard_errors-IsShaped v = (hard_errors_iff p v, misshapen_iff v)
