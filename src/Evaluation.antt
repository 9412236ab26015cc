-- ===== src/Evaluation.antt =====
-- The evaluation of a model version on its golden set: app/services/evaluation_engine.py and
-- app/workers/evaluation_worker.py. The prompt that a regression quotes, and the fields of a
-- comparison that the others determine (its ties, total and question table), are left out, as is
-- the polling loop `run_forever`.
pub mod Worker
pub mod Questions
pub mod Drift
pub mod Steady
pub mod Checks
pub mod Cycle
pub mod Queue
use defnex_mlops.Base.{
  ℕ, Bool, true, false, List, Option, [], ◌∷◌, ◌++◌, ◌+◌, ◌==◌, ◌&&◌, if◌then◌else◌, none, some,
  ltb, leb, Action, Result, ok, err, suc, is_none, ◌||◌,
}
use defnex_mlops.Text.{Text}
use defnex_mlops.Json.{Json}
use defnex_mlops.Validation.{Patterns}
use defnex_mlops.Validation.Report.{user_content}
use defnex_mlops.Registry.{
  ModelVersion, Versions, EvalLossTrend, QualitativeComparison, RegressionCheck, find, update,
}
use defnex_mlops.Registry.Lifecycle.{EvaluationUpdate, submit_evaluation, merge, becomes_evaluated}
use defnex_mlops.Serving.{
  ServingBackend, ServingError, InferenceError, GenerationResult, UnloadOutcome, returned, raised,
}
use defnex_mlops.Training.{Runs, TrainingRun, get_run}
use defnex_mlops.EvalSets.{EvalSetVersion, get_eval_set_version}

-- The `ValueError`s, on which a worker skips the version, and what `unload` may raise.
pub data EvaluationError : Type 0 where
  no_eval_set_reference eval_set_not_found unload_raised : EvaluationError
  adapter_not_loaded : ServingError → EvaluationError

-- `wins`, `losses` and the `record_index` of each of the `regressions`.
pub record Tally : Type 0 where
  pub wins : ℕ
  pub losses : ℕ
  pub regressions : List ℕ

abbrev pub no_answers : Tally
no_answers = record { wins = 0; losses = 0; regressions = [] }

abbrev pub add_answer : Bool → ℕ → Tally → Tally
add_answer true index t = record t { wins = t.wins + 1 }
add_answer false index t = record t {
  losses = t.losses + 1;
  regressions = t.regressions ++ index ∷ [];
}

-- `bool(generation.text)`, and False for an `InferenceError`
abbrev pub is_answer : Result InferenceError GenerationResult → Bool
is_answer (err _) = false
is_answer (ok g) = elim g.text [ [] ↦ false | _ ∷ _ ↦ true ]

-- What the computation reads of the database.
pub record EvaluationTables : Type 0 where
  pub versions : Versions
  pub runs : Runs
  pub eval_set_versions : List EvalSetVersion

-- The query of `_previous_version_eval_loss`: the highest version of the model below `v`.
unfoldable pub previous_version : ℕ → ℕ → Versions → Option ModelVersion
previous_version m v [] = none
previous_version m v (r ∷ t) =
    let rest = previous_version m v t in
    if r.model_id == m && ltb r.version v
    then elim rest [ none ↦ some r | some q ↦ if leb q.version r.version then some r else some q ]
    else rest

-- `training_run.eval_loss`, of the run of a version
abbrev pub run_eval_loss : ModelVersion → Runs → Option ℕ
run_eval_loss mv runs = elim (get_run mv.training_run_id runs) [
  | none ↦ none
  | some r ↦ r.eval_loss
]

-- `_previous_version_eval_loss`
unfoldable pub previous_version_eval_loss : EvaluationTables → ModelVersion → Option ℕ
previous_version_eval_loss d mv = elim (previous_version mv.model_id mv.version d.versions) [
  | none ↦ none
  | some prev ↦ run_eval_loss prev d.runs
]

unfoldable pub trend : EvaluationTables → ModelVersion → Option EvalLossTrend
trend d mv = elim (run_eval_loss mv d.runs) [
  | none ↦ none
  | some loss ↦ some (record {
    this_version_eval_loss = loss;
    previous_version_eval_loss = previous_version_eval_loss d mv;
  })
]

-- `... if total else None`
abbrev pub comparison : Tally → Option QualitativeComparison
comparison t =
    if t.wins + t.losses == 0 then none else some (record { wins = t.wins; losses = t.losses })

abbrev pub regression_check : Tally → Option RegressionCheck
regression_check t =
    if t.wins + t.losses == 0 then none else some (record { regressions_found = t.regressions })

unfoldable pub update_from : EvaluationTables → ModelVersion → Tally → EvaluationUpdate
update_from d mv t = record {
  eval_set_id = mv.eval_set_id;
  eval_set_version = mv.eval_set_version;
  eval_loss_trend = trend d mv;
  qualitative_comparison = comparison t;
  general_domain_regression_check = regression_check t;
}

-- The record of a version's golden set, or the error of the first two guards.
unfoldable pub golden_set : EvaluationTables → ModelVersion → Result EvaluationError EvalSetVersion
golden_set d mv = elim mv.eval_set_id [
  | none ↦ err no_eval_set_reference
  | some k ↦ elim mv.eval_set_version [
    | none ↦ err no_eval_set_reference
    | some v ↦ elim (get_eval_set_version k v d.eval_set_versions) [
      | none ↦ err eval_set_not_found
      | some e ↦ ok e
    ]
  ]
]

module _ {S : Type 0} (p : Patterns) (backend : ServingBackend S) (url : ℕ) where
  -- The loop over the records, from an index on. A record without a user text is not asked.
  unfoldable pub ask_all : ModelVersion → ℕ → List Json → Tally → S → Tally × S
  ask_all mv index [] t s = (t, s)
  ask_all mv index (v ∷ vs) t s = elim (user_content p v) [
    | none ↦ ask_all mv (suc index) vs t s
    | some prompt ↦
        let (r, s') = backend.generate url prompt mv.model_id mv.version s in
        ask_all mv (suc index) vs (add_answer (is_answer r) index t) s'
  ]

  abbrev pub after_unload :
      UnloadOutcome → EvaluationUpdate → Result EvaluationError EvaluationUpdate
  after_unload returned u = ok u
  after_unload raised u = err unload_raised

  -- The pass between the load of the adapter and the end of the `finally` clause.
  unfoldable pub evaluate_loaded :
      EvaluationTables
      → ModelVersion
      → EvalSetVersion
      → S
      → Result EvaluationError EvaluationUpdate × S
  evaluate_loaded d mv e s =
      let (t, s') = ask_all mv 0 e.records no_answers s in
      let (outcome, s'') = backend.unload url mv.model_id mv.version s' in
      (after_unload outcome (update_from d mv t), s'')

  -- `compute_evaluation_update`
  unfoldable pub compute_evaluation_update :
      EvaluationTables → ModelVersion → S → Result EvaluationError EvaluationUpdate × S
  compute_evaluation_update d mv s = elim (golden_set d mv) [
    | err e ↦ (err e, s)
    | ok e ↦
        let (loaded, s') = backend.deploy url mv s in
        elim loaded [ err f ↦ (err (adapter_not_loaded f), s') | ok _ ↦ evaluate_loaded d mv e s' ]
  ]
