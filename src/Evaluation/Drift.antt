-- ===== src/Evaluation/Drift.antt =====
-- The scheduled check of the deployed versions: app/services/drift_check_service.py,
-- app/models/drift_check.py and app/workers/drift_check_worker.py. A comparison reads only the
-- `record_index` of each regression.
use defnex_mlops.Base.{
  ℕ, Bool, List, Option, [], ◌∷◌, ◌++◌, if◌then◌else◌, none, some, leb, any, not, contains, keep,
  Result, ok, err,
}
use defnex_mlops.Validation.{Patterns}
use defnex_mlops.Registry.{ModelVersion, Versions, RegressionCheck, is_deployed}
use defnex_mlops.Registry.Lifecycle.{EvaluationUpdate}
use defnex_mlops.Serving.{ServingBackend}
use defnex_mlops.Evaluation.{EvaluationError, compute_evaluation_update}
use defnex_mlops.Evaluation.Worker.{
  EvaluationDb, ModelDriftCheck, notify_admins, model_quality_drift_detected, is_value_error,
}

-- `{r.get("record_index") for r in (check or {}).get("regressions_found", [])}`
abbrev pub failed_indices : Option RegressionCheck → List ℕ
failed_indices none = []
failed_indices (some c) = c.regressions_found

-- `has_new_regression`
unfoldable pub has_new_regression : Option RegressionCheck → Option RegressionCheck → Bool
has_new_regression baseline new =
    any (λ k. not (contains k (failed_indices baseline))) (failed_indices new)

-- The row of a check, from what was computed for the version.
unfoldable pub drift_check : ℕ → ModelVersion → EvaluationUpdate → ModelDriftCheck
drift_check now mv u = record {
  model_version_id = mv.id;
  measured = u;
  new_regression_detected =
      has_new_regression mv.general_domain_regression_check u.general_domain_regression_check;
  created_at = now;
}

-- The row is stored, and the admins are told of a new regression.
unfoldable pub record_check : ModelDriftCheck → ModelVersion → EvaluationDb → EvaluationDb
record_check c mv d =
    let d' = record d { drift_checks = d.drift_checks ++ c ∷ [] } in
    if c.new_regression_detected then notify_admins model_quality_drift_detected mv d' else d'

-- The rows in the order of their ids.
abbrev pub insert_by_id : ModelVersion → List ModelVersion → List ModelVersion
insert_by_id r [] = r ∷ []
insert_by_id r (x ∷ xs) =
    let rest = insert_by_id r xs in if leb r.id x.id then r ∷ x ∷ xs else x ∷ rest

unfoldable pub sort_by_id : List ModelVersion → List ModelVersion
sort_by_id [] = []
sort_by_id (r ∷ t) = insert_by_id r (sort_by_id t)

-- The query of `run_once`.
unfoldable pub deployed_versions : Versions → List ModelVersion
deployed_versions t = sort_by_id (keep (λ r. is_deployed r.status) t)

abbrev pub add_check : Option ModelDriftCheck → List ModelDriftCheck → List ModelDriftCheck
add_check none checks = checks
add_check (some c) checks = checks ++ c ∷ []

module _ {S : Type 0} (p : Patterns) (backend : ServingBackend S) (url now : ℕ) where
  -- `run_drift_check_for_version`
  unfoldable pub run_drift_check_for_version :
      ModelVersion
      → EvaluationDb
      → S
      → Result EvaluationError (Option ModelDriftCheck) × EvaluationDb × S
  run_drift_check_for_version mv d s =
      let (r, s') = compute_evaluation_update p backend url d.tables mv s in
      elim r [
        | err e ↦ (if is_value_error e then ok none else err e, d, s')
        | ok u ↦ let c = drift_check now mv u in (ok (some c), record_check c mv d, s')
      ]

  -- The loop of `run_once`, with the results so far.
  unfoldable pub run_checks :
      List ModelVersion
      → List ModelDriftCheck
      → EvaluationDb
      → S
      → Result EvaluationError (List ModelDriftCheck) × EvaluationDb × S
  run_checks [] results d s = (ok results, d, s)
  run_checks (mv ∷ mvs) results d s =
      let (r, d', s') = run_drift_check_for_version mv d s in
      elim r [ err e ↦ (err e, d', s') | ok c ↦ run_checks mvs (add_check c results) d' s' ]

  -- `run_once`
  unfoldable pub run_once :
      EvaluationDb → S → Result EvaluationError (List ModelDriftCheck) × EvaluationDb × S
  run_once d s = run_checks (deployed_versions d.tables.versions) [] d s
