-- ===== src/Json.antt =====
-- The values that a JSON file holds, and the Python operations on them: `dict.get`, `in`, and
-- truthiness. A dictionary has its keys once; a number that is not a natural one stands as some
-- natural number with the same truth value.
use defnex_mlops.Base.{
  [], ◌∷◌, ℕ, Bool, Option, none, ◌+◌, false, if◌then◌else◌, some, true, ltb, ◌==◌,
}
use defnex_mlops.Text.{Text}

-- The keys that the services look up, and all others.
pub data Key : Type 0 where
  id_key messages_key metadata_key role_key content_key source_dataset_key source_id_key source_key
        rating_key :
      Key
  other_key : ℕ → Key

unfoldable pub key_code : Key → ℕ
key_code id_key = 0
key_code messages_key = 1
key_code metadata_key = 2
key_code role_key = 3
key_code content_key = 4
key_code source_dataset_key = 5
key_code source_id_key = 6
key_code source_key = 7
key_code rating_key = 8
key_code (other_key n) = 9 + n

mutual
  pub data Json : Type 0 where
    null : Json
    boolean : Bool → Json
    number : ℕ → Json
    text : Text → Json
    array : Items → Json
    object : Fields → Json

  pub data Items : Type 0 where
    nil : Items
    cons : Json → Items → Items

  pub data Fields : Type 0 where
    end : Fields
    field : Key → Json → Fields → Fields

-- `d.get(k)`: `none` where the key is missing.
unfoldable pub get_field : Key → Fields → Option Json
unfolding key_code
get_field k end = none
get_field k (field j v d) = if key_code k == key_code j then some v else get_field k d

-- `d.get(k)`, with Python's `None`, which JSON's `null` is read as too.
unfoldable pub get : Key → Fields → Json
unfolding get_field
get k d = elim (get_field k d) [ none ↦ null | some v ↦ v ]

-- `bool(v)`
unfoldable pub is_truthy : Json → Bool
is_truthy null = false
is_truthy (boolean b) = b
is_truthy (number n) = ltb 0 n
is_truthy (text []) = false
is_truthy (text (_ ∷ _)) = true
is_truthy (array nil) = false
is_truthy (array (cons _ _)) = true
is_truthy (object end) = false
is_truthy (object (field _ _ _)) = true

unfoldable pub is_array : Json → Bool
is_array (array _) = true
is_array _ = false

unfoldable pub is_object : Json → Bool
is_object (object _) = true
is_object _ = false

-- The values that are not hashable, which Python refuses to look up in a set.
unfoldable pub is_unhashable : Json → Bool
is_unhashable (array _) = true
is_unhashable (object _) = true
is_unhashable _ = false
