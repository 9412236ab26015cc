-- ===== src/Datasets/Pins.antt =====
-- A pin is read back as it was written, and a pinned run gets the bytes of its checksum or none.
use defnex_mlops.Base.{
  ℕ, false, List, [], ◌∷◌, ◌≡◌, ◌≢◌, ◌==◌, arith, none, some, ok, inl, inr, refl, ap, sym, ◌∙◌,
  ==_refl, Bool-cases, List-cases, Result-cases,
}
use mathlib.Core.Path.{subst}
use defnex_mlops.Text.{Text, same_text, same_text_eq}
use defnex_mlops.Validation.Gate.{ok_injective}
use defnex_mlops.Json.{
  Json, Fields, Key, key_code, text, object, end, field, get, get_field, is_truthy,
}
use defnex_mlops.Datasets.Pinning.{
  Conversions, DatasetPin, pin_key, hf_dataset_key, dataset_local_path_key, jsonl, set_field,
  pop_field, to_dict, with_pin, pinned, Fetched, bytes, file_not_found, other_failure, Resolved,
  str_or, is_blank, from_dict, read_pin, verify_checksum, verified, resolve_pin_to_file,
  resolve_pinned, resolve_pin_to_config,
}

get_field-set_field : (k : Key) (v : Json) (d : Fields) → get_field k (set_field k v d) ≡ some v
unfolding get_field set_field
get_field-set_field k v end = rw (==_refl (key_code k)) refl
get_field-set_field k v (field j u d) = elim (Bool-cases (key_code k == key_code j)) [
  | inl e ↦ rw (e, set_field) (rw (==_refl (key_code k)) refl)
  | inr e ↦ rw (e, set_field) (rw e (get_field-set_field k v d))
]

get_field-pop_field : (k : Key) (d : Fields) → get_field k (pop_field k d) ≡ none
unfolding get_field pop_field
get_field-pop_field k end = refl
get_field-pop_field k (field j u d) = elim (Bool-cases (key_code k == key_code j)) [
  | inl e ↦ rw (e, pop_field) (get_field-pop_field k d)
  | inr e ↦ rw (e, pop_field) (rw e (get_field-pop_field k d))
]

get_field-pop_field_ne :
    (k j : Key) (d : Fields)
    → (key_code k == key_code j) ≡ false
    → get_field k (pop_field j d) ≡ get_field k d
unfolding get_field pop_field
get_field-pop_field_ne k j end h = refl
get_field-pop_field_ne k j (field i u d) h =
    let rest = get_field-pop_field_ne k j d h in
    elim (Bool-cases (key_code j == key_code i)) [
      | inl e ↦ rw (e, pop_field) (ground (arith, rest))
      | inr e ↦ rw (e, pop_field) (ground (arith, rest))
    ]

get-set_field : (k : Key) (v : Json) (d : Fields) → get k (set_field k v d) ≡ v
unfolding get
get-set_field k v d = rw (get_field-set_field k v d, get) refl

module _ (conv : Conversions) where
  str_or_nil : (s : Text) → str_or conv (text s) [] ≡ s
  unfolding is_truthy
  str_or_nil [] = refl
  str_or_nil (c ∷ s) = conv.str_text (c ∷ s)

  str_or_full : (s default : Text) → s ≢ [] → str_or conv (text s) default ≡ s
  unfolding is_truthy
  str_or_full [] default h = absurd (h refl)
  str_or_full (c ∷ s) default h = conv.str_text (c ∷ s)

  is_blank_filled : (s : Text) → s ≢ [] → is_blank (text s) ≡ false
  is_blank_filled [] h = absurd (h refl)
  is_blank_filled (c ∷ s) h = refl

  from_dict-to_dict :
      (pin : DatasetPin)
      → pin.dataset_id ≢ []
      → pin.source_format ≢ []
      → from_dict conv (to_dict pin) ≡ ok pin
  unfolding from_dict to_dict get get_field key_code
  from_dict-to_dict pin named formatted =
      rw
        (
          is_blank_filled pin.dataset_id named,
          conv.int_number pin.dataset_version,
          conv.str_text pin.dataset_id,
          str_or_nil pin.file_uri,
          str_or_nil pin.content_hash,
          str_or_full pin.source_format jsonl formatted,
        )
        refl

  -- A pin that names its dataset and its format is read back from any config as it was written.
  pub read_pin-with_pin :
      (config : Fields) (pin : DatasetPin)
      → pin.dataset_id ≢ []
      → pin.source_format ≢ []
      → read_pin conv (with_pin config pin) ≡ ok (some pin)
  unfolding read_pin with_pin from_dict get to_dict
  read_pin-with_pin config pin named formatted =
      rw
        (get-set_field pin_key (object (to_dict pin)) config, from_dict-to_dict pin named formatted)
        refl

  module _ (fetch_to : Text → Fetched) (sha256 : List ℕ → Text) (local_path : Text) where
    -- What a resolved pin stands for: the bytes that the storage has at the pin's address, with the
    -- pin's checksum where the pin has one.
    pub record Pinned (pin : DatasetPin) (r : Resolved) : Type 0 where
      pub content : List ℕ
      pub is_pinned : r.source ≡ pinned
      pub is_copied : r.content ≡ some content
      pub fetched : fetch_to pin.file_uri ≡ bytes content
      pub matches : pin.content_hash ≢ [] → sha256 content ≡ pin.content_hash
      pub reads_copy : get_field dataset_local_path_key r.config ≡ some (text local_path)
      pub no_fallback : get_field hf_dataset_key r.config ≡ none

    verify_checksum-matches :
        (content : List ℕ) (pin : DatasetPin) (u : Unit)
        → verify_checksum conv fetch_to sha256 local_path content pin ≡ ok u
        → pin.content_hash ≢ []
        → sha256 content ≡ pin.content_hash
    unfolding verify_checksum
    verify_checksum-matches content pin u h filled = elim (List-cases pin.content_hash) [
      | inl e ↦ absurd (filled e)
      | inr (c, cs, e) ↦ elim (Bool-cases (same_text (sha256 content) (c ∷ cs))) [
        | inl same ↦ same_text_eq (sha256 content) (c ∷ cs) same ∙ sym e
        | inr other ↦
            absurd (let h' = rw (e, verify_checksum) at h in let h'' = rw other at h' in cc h'')
      ]
    ]

    verified-bytes :
        (pin : DatasetPin) (f : Fetched) (content : List ℕ)
        → verified conv fetch_to sha256 local_path pin f ≡ ok content
        → (f ≡ bytes content) × (pin.content_hash ≢ [] → sha256 content ≡ pin.content_hash)
    verified-bytes pin file_not_found content h = cc
    verified-bytes pin other_failure content h = cc
    verified-bytes pin (bytes b) content h =
        elim (Result-cases (verify_checksum conv fetch_to sha256 local_path b pin)) [
          | inr (e, v) ↦ absurd (let h' = rw (v, verified) at h in cc h')
          | inl (u, v) ↦
              let h' = rw (v, verified) at h in
              let same = ok_injective b content _ refl h' in
              (
                ap bytes same,
                λ filled. ap sha256 (sym same) ∙ verify_checksum-matches b pin u v filled,
              )
        ]

    resolve_pin_to_file-bytes :
        (pin : DatasetPin) (content : List ℕ)
        → resolve_pin_to_file conv fetch_to sha256 local_path pin ≡ ok content
        → (fetch_to pin.file_uri ≡ bytes content)
          × (pin.content_hash ≢ [] → sha256 content ≡ pin.content_hash)
    unfolding resolve_pin_to_file
    resolve_pin_to_file-bytes pin content h = elim (List-cases pin.file_uri) [
      | inl e ↦ absurd (let h' = rw (e, resolve_pin_to_file) at h in cc h')
      | inr (c, cs, e) ↦
          let h' = rw (e, resolve_pin_to_file) at h in
          let (f, m) = verified-bytes pin (fetch_to (c ∷ cs)) content h' in (ap fetch_to e ∙ f, m)
    ]

    -- If a config carries a pin and resolves, then to the pin's own bytes, whose checksum is the pin's
    -- where the pin has one; the config names the local copy, and no other dataset.
    pub resolve_pin_to_config-Pinned :
        (config : Fields) (pin : DatasetPin) (r : Resolved)
        → read_pin conv config ≡ ok (some pin)
        → resolve_pin_to_config conv fetch_to sha256 local_path config ≡ ok r
        → Pinned pin r
    unfolding resolve_pin_to_config resolve_pinned key_code
    resolve_pin_to_config-Pinned config pin r p h =
        let h' = rw (p, resolve_pin_to_config) at h in
        elim (Result-cases (resolve_pin_to_file conv fetch_to sha256 local_path pin)) [
          | inr (e, f) ↦ absurd (let h'' = rw (f, resolve_pinned) at h' in cc h'')
          | inl (content, f) ↦
              let h'' = rw (f, resolve_pinned) at h' in
              let (there, matches) = resolve_pin_to_file-bytes pin content f in
              let copied = set_field dataset_local_path_key (text local_path) config in
              subst (λ x. Pinned pin x) (ok_injective _ r _ refl h'')
                (record {
                  content = content;
                  is_pinned = refl;
                  is_copied = refl;
                  fetched = there;
                  matches = matches;
                  reads_copy =
                      get_field-pop_field_ne dataset_local_path_key hf_dataset_key copied refl
                      ∙ get_field-set_field dataset_local_path_key (text local_path) config;
                  no_fallback = get_field-pop_field hf_dataset_key copied;
                })
        ]
