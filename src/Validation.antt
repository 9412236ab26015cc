-- ===== src/Validation.antt =====
-- The hard-error rules of a dataset record: app/services/validation_service.py. The regular
-- expressions, the case folding and the notion of white space are the library's: `Patterns` has
-- their tests as parameters, and whether the JSON text of the records can be encoded as UTF-8, which a
-- lone surrogate in it prevents.
pub mod Rules
pub mod Report
pub mod Errors
pub mod Accepted
pub mod FieldLaws
pub mod Clean
pub mod Shape
pub mod Raises
pub mod Marks
pub mod Gate
pub mod Duplicates
use defnex_mlops.Base.{
  ℕ, [], ◌∷◌, Bool, List, Option, false, true, ◌||◌, not, some, none, ◌&&◌, ◌++◌,
}
use defnex_mlops.Text.{Text, codes, same_text}
use defnex_mlops.Json.{
  null, boolean, number, text, array, object, nil, cons, end, field, Json, Items, get, get_field,
  is_object, Fields, is_array, is_truthy, cons, messages_key, metadata_key, object, array, end,
  id_key, source_dataset_key, source_id_key,
}

pub record Patterns : Type 0 where
  pub is_space : ℕ → Bool
  pub lower : Text → Text
  pub empty_enumeration : Text → Bool
  pub encodable : List Json → Bool

pub data HardError : Type 0 where
  h0_record_not_object h0_messages_not_a_list h0_metadata_not_an_object h0_message_not_an_object
        h1_missing_required_field h2_invalid_role h3_empty_content h4_below_min_length
        h5_empty_enumeration_artifact h6_boilerplate_marker h7_duplicate h8_leakage
        h9_invalid_encoding :
      HardError

-- The `TypeError` that `role not in VALID_ROLES` raises at a list or a dictionary, and the
-- `UnicodeEncodeError` of the content hash.
pub data RaisedError : Type 0 where
  unhashable_role unicode_encode_error : RaisedError

-- `_iter_message_objects`, on the items of the field: what is not a dictionary is skipped.
unfoldable pub message_objects : Items → List Fields
message_objects nil = []
message_objects (cons (object m) rest) = m ∷ message_objects rest
message_objects (cons _ rest) = message_objects rest

unfoldable pub messages_of : Fields → List Fields
messages_of d = elim (get messages_key d) [ array items ↦ message_objects items | _ ↦ [] ]

-- `_iter_message_objects`
unfoldable pub iter_message_objects : Json → List Fields
iter_message_objects (object d) = messages_of d
iter_message_objects _ = []

unfoldable pub all_objects : Items → Bool
all_objects nil = true
all_objects (cons v rest) = is_object v && all_objects rest

abbrev pub error_if : Bool → HardError → List HardError
error_if true e = e ∷ []
error_if false e = []

-- `k in record and not isinstance(record[k], t)`
abbrev pub mistyped : Option Json → (Json → Bool) → Bool
mistyped none is_type = false
mistyped (some v) is_type = not (is_type v)

-- `_shape_errors`, for a record that is a dictionary.
unfoldable pub shape_errors : Fields → List HardError
shape_errors d =
    elim (error_if (mistyped (get_field messages_key d) is_array) h0_messages_not_a_list
      ++ error_if (mistyped (get_field metadata_key d) is_object) h0_metadata_not_an_object) [
        | [] ↦ elim (get messages_key d) [
          | array items ↦ error_if (not (all_objects items)) h0_message_not_an_object
          | _ ↦ []
        ]
        | e ∷ es ↦ e ∷ es
      ]

abbrev pub user_role : Text
user_role = codes "user"

abbrev pub assistant_role : Text
assistant_role = codes "assistant"

abbrev pub system_role : Text
system_role = codes "system"

unfoldable pub has_role : Text → Json → Bool
has_role name (text s) = same_text s name
has_role name _ = false

-- `role in VALID_ROLES`, for a role that is hashable.
unfoldable pub is_valid_role : Json → Bool
is_valid_role v = has_role system_role v || (has_role user_role v || has_role assistant_role v)

-- `metadata or {}`
unfoldable pub metadata_of : Fields → Fields
metadata_of d = elim (get metadata_key d) [ object m ↦ m | _ ↦ end ]

-- The condition of H1.
unfoldable pub misses_required : Fields → Bool
misses_required d =
    not (is_truthy (get id_key d))
    || (not (is_truthy (get messages_key d))
        || (not (is_truthy (get source_dataset_key (metadata_of d)))
            || not (is_truthy (get source_id_key (metadata_of d)))))
