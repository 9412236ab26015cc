-- ===== src/Validation/Clean.antt =====
-- The rules against an independent description of a record without hard errors.
use defnex_mlops.Base.{
  true, false, List, [], ◌∷◌, ◌≡◌, ◌↔◌, ◌<◌, any, all, arith, refl, some, ok, sym,
}
use mathlib.Core.Path.{subst}
use defnex_mlops.Text.{Text, codes, strip, word_count, contains_text}
use defnex_mlops.Json.{
  Json, Items, Fields, null, boolean, number, text, array, object, nil, cons, get, get_field,
  is_truthy, is_object, content_key, role_key, id_key, messages_key, metadata_key,
  source_dataset_key, source_id_key,
}
use defnex_mlops.Validation.{Patterns, misses_required, metadata_of, message_objects, all_objects}
use defnex_mlops.Validation.Rules.{hard_errors, is_empty, has_boilerplate}
use defnex_mlops.Validation.Accepted.{
  IsAccepted, IsAcceptedMessage, AllAccepted, hard_errors_accepts,
}
use defnex_mlops.Validation.FieldLaws.{
  Present, is_printable, KnownRole, truthy-Present, Present-truthy, get-found, get-found_as,
  valid-KnownRole, KnownRole-valid, role_text, text_role, control_printable, shape-objects, shaped,
  array_of, metadata_found, metadata_is, messages_are,
}

-- The phrases of news sites.
abbrev pub site_phrases : List Text
site_phrases =
    codes "baca juga"
    ∷ codes "baca selengkapnya"
    ∷ codes "klik di sini"
    ∷ codes "simak selengkapnya"
    ∷ codes "simak ulasan"
    ∷ []

module _ (p : Patterns) where
  -- A message that may be trained on: its role is known, its content is a text that is not blank,
  -- shows no artifact, phrase of a news site or control character, and has more than twenty words if it
  -- is the assistant's.
  pub record IsCleanMessage (m : Fields) : Type 0 where
    pub content : Text
    pub is_text : get_field content_key m ≡ some (text content)
    pub known_role : KnownRole (get role_key m)
    pub not_blank : is_empty (strip p.is_space content) ≡ false
    pub long_enough : get role_key m ≡ text (codes "assistant") → 20 < word_count p.is_space content
    pub no_artifact : p.empty_enumeration content ≡ false
    pub no_phrase : any (λ phrase. contains_text phrase (p.lower content)) site_phrases ≡ false
    pub all_printable : all is_printable content ≡ true

  abbrev pub AllClean : Items → Type 0
  AllClean nil = Unit
  AllClean (cons v rest) = ((m : Fields) × (v ≡ object m) × IsCleanMessage m) × AllClean rest

  -- A record that may be trained on: a dictionary with an id, with metadata that are a dictionary and
  -- name the source dataset and the source id, and with a list of clean messages that is not empty.
  pub record IsCleanRecord (v : Json) : Type 0 where
    pub fields : Fields
    pub is_dictionary : v ≡ object fields
    pub identified : Present id_key fields
    pub metadata : Fields
    pub has_metadata : get_field metadata_key fields ≡ some (object metadata)
    pub of_dataset : Present source_dataset_key metadata
    pub of_source : Present source_id_key metadata
    pub first : Json
    pub rest : Items
    pub has_messages : get_field messages_key fields ≡ some (array (cons first rest))
    pub clean : AllClean (cons first rest)

module _ (p : Patterns) where
  accepted-IsCleanMessage : (m : Fields) → IsAcceptedMessage p m → IsCleanMessage p m
  unfolding has_boilerplate
  accepted-IsCleanMessage m a =
      let printable = control_printable a.content in
      record {
        content = a.content;
        is_text = get-found_as content_key m (text a.content) a.is_text (λ e. cc);
        known_role = valid-KnownRole (get role_key m) a.known_role;
        not_blank = a.not_blank;
        long_enough = λ e. a.long_enough (text_role (codes "assistant") (get role_key m) e);
        no_artifact = a.no_artifact;
        no_phrase = a.no_boilerplate;
        all_printable = let none_found = a.no_control in ground (arith, printable, none_found);
      }

  clean-IsAcceptedMessage : (m : Fields) → IsCleanMessage p m → IsAcceptedMessage p m
  unfolding has_boilerplate
  clean-IsAcceptedMessage m c =
      let printable = control_printable c.content in
      record {
        content = c.content;
        is_text = get-found content_key m (text c.content) c.is_text;
        known_role = KnownRole-valid (get role_key m) c.known_role;
        not_blank = c.not_blank;
        long_enough = λ e. c.long_enough (role_text (codes "assistant") (get role_key m) e);
        no_artifact = c.no_artifact;
        no_boilerplate = c.no_phrase;
        no_control = let all_of = c.all_printable in ground (arith, printable, all_of);
      }

  accepted-AllClean :
      (items : Items)
      → all_objects items ≡ true
      → AllAccepted p (message_objects items)
      → AllClean p items
  unfolding all_objects message_objects is_object
  accepted-AllClean nil o a = tt
  accepted-AllClean (cons (object m) rest) o a =
      ((m, refl, accepted-IsCleanMessage m a.0), accepted-AllClean rest (ground arith) a.1)
  accepted-AllClean (cons null rest) o a = cc
  accepted-AllClean (cons (boolean b) rest) o a = cc
  accepted-AllClean (cons (number n) rest) o a = cc
  accepted-AllClean (cons (text s) rest) o a = cc
  accepted-AllClean (cons (array xs) rest) o a = cc

  clean-AllAccepted :
      (items : Items)
      → AllClean p items
      → (all_objects items ≡ true) × AllAccepted p (message_objects items)
  unfolding all_objects message_objects is_object
  clean-AllAccepted nil c = (refl, tt)
  clean-AllAccepted (cons v rest) ((m, e, c), cs) =
      let (objects, accepted) = clean-AllAccepted rest cs in
      rw e (objects, (clean-IsAcceptedMessage m c, accepted))

  accepted-IsCleanRecord : (v : Json) → IsAccepted p v → IsCleanRecord p v
  unfolding misses_required
  accepted-IsCleanRecord v a =
      let d = a.fields in
      let whole = a.complete in
      let (sent, found, some_sent) = truthy-Present messages_key d (ground arith) in
      let (first, rest, e) = array_of d sent found some_sent a.shaped in
      let has_messages = rw e at found in
      let has_list = get-found messages_key d (array (cons first rest)) has_messages in
      let of_dataset : is_truthy (get source_dataset_key (metadata_of d)) ≡ true = ground arith in
      let of_source : is_truthy (get source_id_key (metadata_of d)) ≡ true = ground arith in
      let (metadata, m, same) = metadata_found d (get metadata_key d) refl of_dataset in
      record {
        fields = d;
        is_dictionary = a.is_dictionary;
        identified = truthy-Present id_key d (ground arith);
        metadata = metadata;
        has_metadata = get-found_as metadata_key d (object metadata) m (λ n. cc);
        of_dataset = truthy-Present source_dataset_key metadata (rw same at of_dataset);
        of_source = truthy-Present source_id_key metadata (rw same at of_source);
        first = first;
        rest = rest;
        has_messages = has_messages;
        clean =
            accepted-AllClean (cons first rest)
              (shape-objects d (cons first rest) has_list a.shaped)
              (subst (λ l. AllAccepted p l) (messages_are d (cons first rest) has_list) a.clean);
      }

  pub clean-IsAccepted : (v : Json) → IsCleanRecord p v → IsAccepted p v
  unfolding misses_required is_truthy
  clean-IsAccepted v c =
      let d = c.fields in
      let items = cons c.first c.rest in
      let (objects, accepted) = clean-AllAccepted items c.clean in
      let has_list = get-found messages_key d (array items) c.has_messages in
      let meta = metadata_is d c.metadata c.has_metadata in
      let id = Present-truthy id_key d c.identified in
      let dataset = Present-truthy source_dataset_key c.metadata c.of_dataset in
      let source = Present-truthy source_id_key c.metadata c.of_source in
      record {
        fields = d;
        is_dictionary = c.is_dictionary;
        shaped = shaped d c.metadata items c.has_messages c.has_metadata objects;
        complete = rw (misses_required, id, has_list, meta, dataset, source) refl;
        clean = subst (λ l. AllAccepted p l) (sym (messages_are d items has_list)) accepted;
      }

  -- The rules find nothing in a record exactly if it is clean: a dictionary with an id, with metadata
  -- that name the source dataset and the source id, and with a list of messages that is not empty, of
  -- which every one has a known role and a text that is not blank, shows no artifact, phrase of a news
  -- site or control character, and has more than twenty words if it is the assistant's.
  pub hard_errors_iff : (v : Json) → (hard_errors p v ≡ ok []) ↔ IsCleanRecord p v
  hard_errors_iff v =
      let accepts = hard_errors_accepts p v in
      (λ h. accepted-IsCleanRecord v (accepts.0 h), λ c. accepts.1 (clean-IsAccepted v c))
