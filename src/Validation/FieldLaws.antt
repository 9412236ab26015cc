-- ===== src/Validation/FieldLaws.antt =====
-- Fields of a record, roles and characters: what the tests of the code say of them.
use defnex_mlops.Base.{
  ℕ, Bool, true, false, [], ◌∷◌, ◌≡◌, ◌≢◌, ◌⊎◌, ◌||◌, ◌&&◌, ◌==◌, not, leb, any, all, arith, refl,
  inl, inr, some, Bool-cases, Option-cases, sym, ◌∙◌,
}
use defnex_mlops.Text.{Text, codes, same_text, same_text_eq, same_text_refl}
use defnex_mlops.Json.{
  Json, Items, Fields, Key, null, boolean, number, text, array, object, nil, cons, get, get_field,
  is_truthy, is_array, is_object, messages_key, metadata_key, source_dataset_key,
}
use defnex_mlops.Validation.{
  shape_errors, metadata_of, messages_of, message_objects, all_objects, mistyped, is_valid_role,
  has_role,
}
use defnex_mlops.Validation.Rules.{is_control_char}

-- A field that is there, with a value that is not empty, zero, false or null.
abbrev pub Present : Key → Fields → Type 0
Present k d = (v : Json) × (get_field k d ≡ some v) × (is_truthy v ≡ true)

-- The characters of a text: all but the control characters, of which the tabulator, the line feed and
-- the carriage return are allowed.
abbrev pub is_printable : ℕ → Bool
is_printable c = (leb 32 c && not (c == 127)) || (c == 9 || (c == 10 || c == 13))

-- The role is one of three.
abbrev pub KnownRole : Json → Type 0
KnownRole v =
    (v ≡ text (codes "system")) ⊎ ((v ≡ text (codes "user")) ⊎ (v ≡ text (codes "assistant")))

pub truthy-Present : (k : Key) (d : Fields) → is_truthy (get k d) ≡ true → Present k d
unfolding get is_truthy
truthy-Present k d h = elim (Option-cases (get_field k d)) [
  | inl e ↦ absurd (let h' = rw (get, e) at h in cc h')
  | inr (v, e) ↦ (v, e, rw (get, e) at h)
]

pub Present-truthy : (k : Key) (d : Fields) → Present k d → is_truthy (get k d) ≡ true
unfolding get
Present-truthy k d (v, e, t) = rw (get, e) t

pub get-found : (k : Key) (d : Fields) (v : Json) → get_field k d ≡ some v → get k d ≡ v
unfolding get
get-found k d v e = rw (get, e) refl

pub get-found_as :
    (k : Key) (d : Fields) (v : Json) → get k d ≡ v → v ≢ null → get_field k d ≡ some v
unfolding get
get-found_as k d v e n = elim (Option-cases (get_field k d)) [
  | inl m ↦ absurd (let e' = rw (get, m) at e in n (sym e'))
  | inr (w, m) ↦ let e' = rw (get, m) at e in m ∙ rw e' refl
]

-- The role, and the conditions on the characters and the phrases.
pub valid-KnownRole : (v : Json) → is_valid_role v ≡ true → KnownRole v
unfolding is_valid_role has_role
valid-KnownRole (text s) h = elim (Bool-cases (same_text s (codes "system"))) [
  | inl e ↦ inl (rw (same_text_eq s (codes "system") e) refl)
  | inr e ↦ elim (Bool-cases (same_text s (codes "user"))) [
    | inl f ↦ inr (inl (rw (same_text_eq s (codes "user") f) refl))
    | inr f ↦
        let g : same_text s (codes "assistant") ≡ true = ground arith in
        inr (inr (rw (same_text_eq s (codes "assistant") g) refl))
  ]
]
valid-KnownRole null h = cc
valid-KnownRole (boolean b) h = cc
valid-KnownRole (number n) h = cc
valid-KnownRole (array xs) h = cc
valid-KnownRole (object d) h = cc

pub KnownRole-valid : (v : Json) → KnownRole v → is_valid_role v ≡ true
unfolding is_valid_role has_role same_text
KnownRole-valid v (inl e) = rw e refl
KnownRole-valid v (inr (inl e)) = rw e refl
KnownRole-valid v (inr (inr e)) = rw e refl

pub role_text : (name : Text) (v : Json) → has_role name v ≡ true → v ≡ text name
unfolding has_role
role_text name (text s) h = rw (same_text_eq s name h) refl
role_text name null h = cc
role_text name (boolean b) h = cc
role_text name (number n) h = cc
role_text name (array xs) h = cc
role_text name (object d) h = cc

pub text_role : (name : Text) (v : Json) → v ≡ text name → has_role name v ≡ true
unfolding has_role
text_role name v e = rw e (same_text_refl name)

pub control_printable : (s : Text) → all is_printable s ≡ not (any is_control_char s)
unfolding is_control_char
control_printable [] = refl
control_printable (c ∷ s) = let rest = control_printable s in ground (arith, rest)

-- What an accepted shape says of the two fields.
pub shape-messages :
    (d : Fields) → shape_errors d ≡ [] → mistyped (get_field messages_key d) is_array ≡ false
unfolding shape_errors
shape-messages d h = elim (Bool-cases (mistyped (get_field messages_key d) is_array)) [
  | inl e ↦ absurd (let h' = rw (shape_errors, e) at h in cc h')
  | inr e ↦ e
]

pub shape-objects :
    (d : Fields) (items : Items)
    → get messages_key d ≡ array items
    → shape_errors d ≡ []
    → all_objects items ≡ true
unfolding shape_errors
shape-objects d items g h =
    let a = shape-messages d h in
    elim (Bool-cases (mistyped (get_field metadata_key d) is_object)) [
      | inl e ↦ absurd (let h' = rw (shape_errors, a, e) at h in cc h')
      | inr e ↦ let h' = rw (shape_errors, a, e, g) at h in ground arith
    ]

pub shaped :
    (d metadata : Fields) (items : Items)
    → get_field messages_key d ≡ some (array items)
    → get_field metadata_key d ≡ some (object metadata)
    → all_objects items ≡ true
    → shape_errors d ≡ []
unfolding shape_errors is_array is_object
shaped d metadata items a b c =
    let g = get-found messages_key d (array items) a in rw (shape_errors, a, b, g, c) refl

pub array_of :
    (d : Fields) (v : Json)
    → get_field messages_key d ≡ some v
    → is_truthy v ≡ true
    → shape_errors d ≡ []
    → (first : Json) × (rest : Items) × (v ≡ array (cons first rest))
unfolding is_truthy is_array
array_of d (array (cons first rest)) e t h = (first, rest, refl)
array_of d (array nil) e t h = cc
array_of d null e t h = cc
array_of d (boolean b) e t h =
    absurd (let ruled = shape-messages d h in let a = rw e at ruled in cc a)
array_of d (number n) e t h =
    absurd (let ruled = shape-messages d h in let a = rw e at ruled in cc a)
array_of d (text s) e t h = absurd (let ruled = shape-messages d h in let a = rw e at ruled in cc a)
array_of d (object o) e t h =
    absurd (let ruled = shape-messages d h in let a = rw e at ruled in cc a)

pub metadata_found :
    (d : Fields) (v : Json)
    → get metadata_key d ≡ v
    → is_truthy (get source_dataset_key (metadata_of d)) ≡ true
    → (metadata : Fields) × (v ≡ object metadata) × (metadata_of d ≡ metadata)
unfolding metadata_of get get_field is_truthy
metadata_found d (object metadata) e t = (metadata, refl, rw (metadata_of, e) refl)
metadata_found d null e t = absurd (let t' = rw (metadata_of, e) at t in cc t')
metadata_found d (boolean b) e t = absurd (let t' = rw (metadata_of, e) at t in cc t')
metadata_found d (number n) e t = absurd (let t' = rw (metadata_of, e) at t in cc t')
metadata_found d (text s) e t = absurd (let t' = rw (metadata_of, e) at t in cc t')
metadata_found d (array xs) e t = absurd (let t' = rw (metadata_of, e) at t in cc t')

pub metadata_is :
    (d metadata : Fields)
    → get_field metadata_key d ≡ some (object metadata)
    → metadata_of d ≡ metadata
unfolding metadata_of
metadata_is d metadata e =
    let g = get-found metadata_key d (object metadata) e in rw (metadata_of, g) refl

pub messages_are :
    (d : Fields) (items : Items)
    → get messages_key d ≡ array items
    → messages_of d ≡ message_objects items
unfolding messages_of
messages_are d items e = rw (messages_of, e) refl
