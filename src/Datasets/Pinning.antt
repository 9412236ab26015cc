-- ===== src/Datasets/Pinning.antt =====
-- The pin of a training run on the bytes of its dataset: app/services/dataset_pinning.py. `str` and
-- `int` of a JSON value, the object storage and the hash are parameters; the local copy stands as its
-- bytes.
use defnex_mlops.Base.{
  ℕ, Bool, true, false, List, Option, [], ◌∷◌, ◌≡◌, ◌==◌, ◌||◌, if◌then◌else◌, none, some, Result,
  ok, err,
}
use defnex_mlops.Text.{Text, same_text, codes}
use defnex_mlops.Json.{
  Json, Fields, Key, other_key, key_code, null, text, number, object, end, field, get, is_truthy,
}

-- `str(v)` and `int(v)`, which may raise, on the values that JSON has.
pub record Conversions : Type 0 where
  pub str_of : Json → Text
  pub int_of : Json → Option ℕ
  pub str_text : (s : Text) → str_of (text s) ≡ s
  pub int_number : (n : ℕ) → int_of (number n) ≡ some n

pub data DatasetPinError : Type 0 where
  missing_fields not_an_integer no_file_uri object_missing object_unreadable checksum_mismatch
        names_no_dataset :
      DatasetPinError

pub record DatasetPin : Type 0 where
  pub dataset_id : Text
  pub dataset_version : ℕ
  pub file_uri : Text
  pub content_hash : Text
  pub source_format : Text
  pub row_count : Json

-- `PIN_KEY`, and the keys of a pin and of a config.
abbrev pub pin_key : Key
pin_key = other_key 0

abbrev pub dataset_id_key : Key
dataset_id_key = other_key 1

abbrev pub dataset_version_key : Key
dataset_version_key = other_key 2

abbrev pub file_uri_key : Key
file_uri_key = other_key 3

abbrev pub content_hash_key : Key
content_hash_key = other_key 4

abbrev pub source_format_key : Key
source_format_key = other_key 5

abbrev pub row_count_key : Key
row_count_key = other_key 6

abbrev pub hf_dataset_key : Key
hf_dataset_key = other_key 7

abbrev pub dataset_local_path_key : Key
dataset_local_path_key = other_key 8

abbrev pub jsonl : Text
jsonl = codes "jsonl"

-- `{**d, k: v}`, and `d[k] = v`
unfoldable pub set_field : Key → Json → Fields → Fields
unfolding key_code
set_field k v end = field k v end
set_field k v (field j u d) =
    if key_code k == key_code j then field k v d else field j u (set_field k v d)

-- `d.pop(k, None)`
unfoldable pub pop_field : Key → Fields → Fields
unfolding key_code
pop_field k end = end
pop_field k (field j u d) =
    let rest = pop_field k d in if key_code k == key_code j then rest else field j u rest

-- `DatasetPin.to_dict`
unfoldable pub to_dict : DatasetPin → Fields
to_dict pin = field dataset_id_key (text pin.dataset_id) (
    field dataset_version_key (number pin.dataset_version) (
      field file_uri_key (text pin.file_uri) (
        field content_hash_key (text pin.content_hash) (
          field source_format_key (text pin.source_format)
            (field row_count_key pin.row_count end)))))

-- `v in (None, "")`
abbrev pub is_blank : Json → Bool
is_blank null = true
is_blank (text []) = true
is_blank _ = false

-- `with_pin`
unfoldable pub with_pin : Fields → DatasetPin → Fields
with_pin config pin = set_field pin_key (object (to_dict pin)) config

pub data PinSource : Type 0 where
  pinned legacy_hf_dataset : PinSource

-- What the storage answers to a fetch.
pub data Fetched : Type 0 where
  bytes : List ℕ → Fetched
  file_not_found other_failure : Fetched

-- A config for the trainer, with the bytes of the local copy if the dataset came from the pin.
pub record Resolved : Type 0 where
  pub config : Fields
  pub source : PinSource
  pub content : Option (List ℕ)

module _ (conv : Conversions) where
  -- `str(v or default)`
  abbrev pub str_or : Json → Text → Text
  str_or v default = if is_truthy v then conv.str_of v else default

  -- `DatasetPin.from_dict`
  unfoldable pub from_dict : Fields → Result DatasetPinError DatasetPin
  from_dict payload =
      if is_blank (get dataset_id_key payload) || is_blank (get dataset_version_key payload)
      then err missing_fields
      else elim (conv.int_of (get dataset_version_key payload)) [
        | none ↦ err not_an_integer
        | some v ↦ ok (record {
          dataset_id = conv.str_of (get dataset_id_key payload);
          dataset_version = v;
          file_uri = str_or (get file_uri_key payload) [];
          content_hash = str_or (get content_hash_key payload) [];
          source_format = str_or (get source_format_key payload) jsonl;
          row_count = get row_count_key payload;
        })
      ]

  abbrev pub pin_of : Json → Result DatasetPinError (Option DatasetPin)
  pin_of (object payload) = elim (from_dict payload) [ err e ↦ err e | ok pin ↦ ok (some pin) ]
  pin_of _ = ok none

  -- `read_pin`
  unfoldable pub read_pin : Fields → Result DatasetPinError (Option DatasetPin)
  read_pin config = pin_of (get pin_key config)

  module _ (fetch_to : Text → Fetched) (sha256 : List ℕ → Text) (local_path : Text) where
    -- `_verify_checksum`
    unfoldable pub verify_checksum : List ℕ → DatasetPin → Result DatasetPinError Unit
    verify_checksum content pin = elim pin.content_hash [
      | [] ↦ ok tt
      | c ∷ cs ↦ if same_text (sha256 content) (c ∷ cs) then ok tt else err checksum_mismatch
    ]

    abbrev pub verified : DatasetPin → Fetched → Result DatasetPinError (List ℕ)
    verified pin file_not_found = err object_missing
    verified pin other_failure = err object_unreadable
    verified pin (bytes content) = elim (verify_checksum content pin) [
      | err e ↦ err e
      | ok _ ↦ ok content
    ]

    -- `resolve_pin_to_file`
    unfoldable pub resolve_pin_to_file : DatasetPin → Result DatasetPinError (List ℕ)
    resolve_pin_to_file pin = elim pin.file_uri [
      | [] ↦ err no_file_uri
      | c ∷ cs ↦ verified pin (fetch_to (c ∷ cs))
    ]

    unfoldable pub resolve_legacy : Fields → Result DatasetPinError Resolved
    resolve_legacy config =
        if is_truthy (get hf_dataset_key config)
        then ok (record {
          config = set_field dataset_local_path_key (get hf_dataset_key config) config;
          source = legacy_hf_dataset;
          content = none;
        })
        else err names_no_dataset

    unfoldable pub resolve_pinned : Fields → DatasetPin → Result DatasetPinError Resolved
    resolve_pinned config pin = elim (resolve_pin_to_file pin) [
      | err e ↦ err e
      | ok content ↦ ok (record {
        config =
            pop_field hf_dataset_key (set_field dataset_local_path_key (text local_path) config);
        source = pinned;
        content = some content;
      })
    ]

    -- `resolve_pin_to_config`
    unfoldable pub resolve_pin_to_config : Fields → Result DatasetPinError Resolved
    resolve_pin_to_config config = elim (read_pin config) [
      | err e ↦ err e
      | ok none ↦ resolve_legacy config
      | ok (some pin) ↦ resolve_pinned config pin
    ]
