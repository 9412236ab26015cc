-- ===== src/EvalSets.antt =====
-- The golden sets: app/models/eval_set.py and app/services/eval_set_service.py. A stored validation
-- report stands as the list of the records that it examined.
pub mod Versions
pub mod Leakage
pub mod Revalidation
use defnex_mlops.Base.{
  ℕ, Bool, List, Option, [], ◌∷◌, ◌++◌, ◌+◌, ◌==◌, ◌&&◌, if◌then◌else◌, contains, none, some, ltb,
  length, Action, ok, err,
}
use defnex_mlops.Text.{Text}
use defnex_mlops.Json.{Json}
use defnex_mlops.Validation.{Patterns}
use defnex_mlops.Validation.Report.{user_content, eval_user_contents, seen_text}

pub record EvalSetVersion : Type 0 where
  pub id : ℕ
  pub eval_set_id : ℕ
  pub version : ℕ
  pub records : List Json
  pub created_at : ℕ

-- The tables `eval_sets` and `eval_set_versions`.
pub record EvalSetTables : Type 0 where
  pub eval_sets : List ℕ
  pub eval_set_versions : List EvalSetVersion

-- The refusal, with the number of texts that overlap.
pub data EvalSetError : Type 0 where
  overlaps_validated_data : ℕ → EvalSetError

-- `get_eval_set_version`
unfoldable pub get_eval_set_version : ℕ → ℕ → List EvalSetVersion → Option EvalSetVersion
get_eval_set_version k v [] = none
get_eval_set_version k v (r ∷ t) =
    if r.eval_set_id == k && r.version == v then some r else get_eval_set_version k v t

-- The row that `order_by(version.desc())` puts first.
abbrev pub newer : EvalSetVersion → Option EvalSetVersion → EvalSetVersion
newer r none = r
newer r (some q) = if ltb r.version q.version then q else r

-- `get_latest_eval_set_version`
unfoldable pub get_latest_eval_set_version : ℕ → List EvalSetVersion → Option EvalSetVersion
get_latest_eval_set_version k [] = none
get_latest_eval_set_version k (r ∷ t) =
    let rest = get_latest_eval_set_version k t in
    if r.eval_set_id == k then some (newer r rest) else rest

-- `(latest_version or 0) + 1`
unfoldable pub next_version : ℕ → List EvalSetVersion → ℕ
next_version k t = elim (get_latest_eval_set_version k t) [ none ↦ 1 | some r ↦ r.version + 1 ]

-- `register_eval_set`
unfoldable pub register_eval_set : ℕ → EvalSetTables → EvalSetTables
register_eval_set k w =
    if contains k w.eval_sets then w else record w { eval_sets = w.eval_sets ++ k ∷ [] }

module _ (p : Patterns) where
  -- `_validated_user_contents`
  unfoldable pub validated_user_contents : List (List Json) → List Text
  validated_user_contents [] = []
  validated_user_contents (r ∷ reports) = eval_user_contents p r ++ validated_user_contents reports

  abbrev pub insert_text : Text → List Text → List Text
  insert_text s texts = if seen_text s texts then texts else s ∷ texts

  -- `overlaps`, a set
  unfoldable pub overlaps : List Text → List Json → List Text
  overlaps validated [] = []
  overlaps validated (v ∷ vs) = elim (user_content p v) [
    | none ↦ overlaps validated vs
    | some s ↦
        if seen_text s validated
        then insert_text s (overlaps validated vs)
        else overlaps validated vs
  ]

  -- `create_eval_set_version`; `id` is the key that the database draws.
  unfoldable pub create_eval_set_version :
      List (List Json) → ℕ → ℕ → ℕ → List Json → Action EvalSetTables EvalSetError EvalSetVersion
  create_eval_set_version reports id now k records w =
      let w' = register_eval_set k w in
      elim (overlaps (validated_user_contents reports) records) [
        | s ∷ texts ↦ (err (overlaps_validated_data (length (s ∷ texts))), w')
        | [] ↦
            let row : EvalSetVersion = record {
              id = id;
              eval_set_id = k;
              version = next_version k w'.eval_set_versions;
              records = records;
              created_at = now;
            } in
            (ok row, record w' { eval_set_versions = w'.eval_set_versions ++ row ∷ [] })
      ]
