-- ===== src/Registry.antt =====
-- The model registry: app/models/model.py, and the queries and status changes of
-- app/services/model_service.py and app/services/deployment_service.py on it.
--
-- Identifiers (`model_id`, `training_run_id`, an artifact's `uri`, ...) are only compared, so they
-- are numbers. A loss is a float that is only compared; it stands as a scaled number.
pub mod Lookup
pub mod Update
pub mod Lifecycle
pub mod Register
use defnex_mlops.Base.{
  ℕ, ◌≡◌, Bool, true, false, ◌&&◌, not, Option, none, some, List, [], ◌∷◌, ◌==◌, if◌then◌else◌, suc,
}

pub data Status : Type 0 where
  registered evaluated promoted rejected staging validated production deployed retired archived :
      Status

pub record Artifact : Type 0 where
  pub is_adapter : Bool
  pub uri : Option ℕ
  pub checksum : Option ℕ

pub record EvalLossTrend : Type 0 where
  pub this_version_eval_loss : ℕ
  pub previous_version_eval_loss : Option ℕ

pub record QualitativeComparison : Type 0 where
  pub wins : ℕ
  pub losses : ℕ

-- One entry of `regressions_found` for each golden-set record that failed: its `record_index`.
pub record RegressionCheck : Type 0 where
  pub regressions_found : List ℕ

pub record ModelVersion : Type 0 where
  pub id : ℕ
  pub model_id : ℕ
  pub version : ℕ
  pub status : Status
  pub training_run_id : ℕ
  pub base_model : ℕ
  pub artifacts : List Artifact
  pub eval_loss_trend : Option EvalLossTrend
  pub qualitative_comparison : Option QualitativeComparison
  pub general_domain_regression_check : Option RegressionCheck
  pub eval_set_id : Option ℕ
  pub eval_set_version : Option ℕ
  pub evaluation_requested : Bool
  pub promotion_decision_ref : Option ℕ

-- The rows of `model_versions`.
abbrev pub Versions : Type 0
Versions = List ModelVersion

unfoldable pub is_deployed : Status → Bool
is_deployed deployed = true
is_deployed _ = false

-- `db.get(ModelVersion, id)`
abbrev pub find : ℕ → Versions → Option ModelVersion
find k [] = none
find k (r ∷ t) = if k == r.id then some r else find k t

-- A flushed attribute change of the row with this key.
abbrev pub update : ℕ → (ModelVersion → ModelVersion) → Versions → Versions
update k f [] = []
update k f (r ∷ t) = if k == r.id then f r ∷ t else r ∷ update k f t

abbrev pub with_status : Status → ModelVersion → ModelVersion
with_status s r = record r { status = s }

-- `model_version.status = s`
abbrev pub set_status : ℕ → Status → Versions → Versions
set_status k s = update k (with_status s)

-- `_deployed_model_version`: the row that holds the production pointer of `model_id`.
abbrev pub deployed_model_version : ℕ → Versions → Option ModelVersion
deployed_model_version m [] = none
deployed_model_version m (r ∷ t) =
    if r.model_id == m && is_deployed r.status then some r else deployed_model_version m t

-- The query for `previous` in `_deploy_locked`: the same, without the row that is deployed.
abbrev pub other_deployed : ℕ → ℕ → Versions → Option ModelVersion
other_deployed m k [] = none
other_deployed m k (r ∷ t) =
    if r.model_id == m && is_deployed r.status && not (r.id == k)
    then some r
    else other_deployed m k t

-- `get_model_version`
abbrev pub get_model_version : ℕ → ℕ → Versions → Option ModelVersion
get_model_version m v [] = none
get_model_version m v (r ∷ t) =
    if r.model_id == m && r.version == v then some r else get_model_version m v t

-- How many rows of `model_id` are DEPLOYED: what `uq_model_versions_one_deployed` bounds by one.
abbrev pub count_deployed : ℕ → Versions → ℕ
count_deployed m [] = 0
count_deployed m (r ∷ t) =
    if r.model_id == m && is_deployed r.status then suc (count_deployed m t) else count_deployed m t

-- The three signals of a version, each null until it is submitted.
pub record EvaluationObject : Type 0 where
  pub eval_loss_trend : Option EvalLossTrend
  pub qualitative_comparison : Option QualitativeComparison
  pub general_domain_regression_check : Option RegressionCheck

unfoldable pub get_evaluation : ModelVersion → EvaluationObject
get_evaluation mv = record {
  eval_loss_trend = mv.eval_loss_trend;
  qualitative_comparison = mv.qualitative_comparison;
  general_domain_regression_check = mv.general_domain_regression_check;
}
