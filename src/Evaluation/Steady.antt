-- ===== src/Evaluation/Steady.antt =====
-- A server whose answers do not change is not reported as drift.
use defnex_mlops.Base.{
  some_injective, ℕ, true, false, List, Option, [], ◌∷◌, ◌++◌, ◌≡◌, arith, refl, ◌≢◌, some, ok, err,
  inl, inr, suc, not, any, contains, ==_refl, Bool-cases, Option-cases, Result-cases, ◌∙◌, ap, sym,
}
use defnex_mlops.Json.{Json}
use defnex_mlops.Text.{Text}
use defnex_mlops.Validation.{Patterns}
use defnex_mlops.Validation.Report.{user_content}
use defnex_mlops.Registry.{ModelVersion, RegressionCheck}
use defnex_mlops.Serving.{ServingBackend}
use defnex_mlops.Evaluation.{
  Tally, no_answers, add_answer, is_answer, EvaluationTables, EvaluationError, update_from,
  golden_set, ask_all, compute_evaluation_update, regression_check,
}
use defnex_mlops.Evaluation.Questions.{compute_evaluation_update-Measured}
use defnex_mlops.Validation.Gate.{ok_injective}
use defnex_mlops.Registry.Lifecycle.{EvaluationUpdate}
use defnex_mlops.Evaluation.Worker.{EvaluationDb, ModelDriftCheck, is_value_error}
use defnex_mlops.Evaluation.Drift.{
  has_new_regression, failed_indices, run_drift_check_for_version, drift_check, record_check,
}

contains-subset :
    (l m : List ℕ)
    → ((k : ℕ) → contains k l ≡ true → contains k m ≡ true)
    → any (λ k. not (contains k m)) l ≡ false
contains-subset [] m h = refl
contains-subset (x ∷ l) m h =
    let head = h x (rw (==_refl x) refl) in
    let rest = contains-subset l m (λ k e. h k (ground arith)) in rw (head, rest) refl

-- Against its own findings a check finds nothing new.
has_new_regression-same : (c : Option RegressionCheck) → has_new_regression c c ≡ false
unfolding has_new_regression
has_new_regression-same c = contains-subset (failed_indices c) (failed_indices c) (λ k e. e)

record_check-quiet :
    (c : ModelDriftCheck) (mv : ModelVersion) (db : EvaluationDb)
    → c.new_regression_detected ≡ false
    → ((record_check c mv db).notifications ≡ db.notifications)
      × ((record_check c mv db).drift_checks ≡ db.drift_checks ++ c ∷ [])
unfolding record_check
record_check-quiet c mv db h = rw h (refl, refl)

module _ {S : Type 0} (p : Patterns) (backend : ServingBackend S) (url : ℕ) where
  -- What the server answers to a prompt is the same in all of its states.
  abbrev pub IsSteady : ModelVersion → Type 0
  IsSteady mv =
      (prompt : Text) (s s' : S)
      → (backend.generate url prompt mv.model_id mv.version s).0
        ≡ (backend.generate url prompt mv.model_id mv.version s').0

  -- The loop reads no more of the version than its name.
  ask_all-IsSteady :
      (mv mv' : ModelVersion) (index : ℕ) (vs : List Json) (t : Tally) (s s' : S)
      → ((prompt : Text) (s s' : S)
          → (backend.generate url prompt mv.model_id mv.version s).0
            ≡ (backend.generate url prompt mv'.model_id mv'.version s').0)
      → (ask_all p backend url mv index vs t s).0 ≡ (ask_all p backend url mv' index vs t s').0
  unfolding ask_all
  ask_all-IsSteady mv mv' index [] t s s' st = refl
  ask_all-IsSteady mv mv' index (v ∷ vs) t s s' st = elim (Option-cases (user_content p v)) [
    | inl e ↦ rw (e, ask_all) (ask_all-IsSteady mv mv' (suc index) vs t s s' st)
    | inr (prompt, e) ↦
        let (r, s1) = backend.generate url prompt mv.model_id mv.version s in
        let (_, s2) = backend.generate url prompt mv'.model_id mv'.version s' in
        rw (e, ask_all, ← st prompt s s')
          (ask_all-IsSteady mv mv' (suc index) vs (add_answer (is_answer r) index t) s1 s2 st)
  ]

  -- The version as it is deployed, with the findings of its evaluation as the baseline.
  pub record IsDeployedFrom (d : EvaluationTables) (mv : ModelVersion) (u : EvaluationUpdate)
      (d' : EvaluationTables) (mv' : ModelVersion) : Type 0 where
    pub same_model : mv.model_id ≡ mv'.model_id
    pub same_version : mv.version ≡ mv'.version
    pub same_set : golden_set d mv ≡ golden_set d' mv'
    pub baseline : mv'.general_domain_regression_check ≡ u.general_domain_regression_check

  steady_findings :
      (d d' : EvaluationTables) (mv mv' : ModelVersion) (s s' : S) (u u' : EvaluationUpdate)
      → IsSteady mv
      → IsDeployedFrom d mv u d' mv'
      → (compute_evaluation_update p backend url d mv s).0 ≡ ok u
      → (compute_evaluation_update p backend url d' mv' s').0 ≡ ok u'
      → u.general_domain_regression_check ≡ u'.general_domain_regression_check
  unfolding update_from
  steady_findings d d' mv mv' s s' u u' st f h h' =
      let m = compute_evaluation_update-Measured p backend url d mv s u h in
      let m' = compute_evaluation_update-Measured p backend url d' mv' s' u' h' in
      let same : m.golden ≡ m'.golden =
        ok_injective m.golden m'.golden (golden_set d mv) m.is_golden (f.same_set ∙ m'.is_golden) in
      let asked =
        ask_all-IsSteady mv mv' 0 m.golden.records no_answers m.started m'.started
          (λ prompt a b. st prompt a b ∙ rw (f.same_model, f.same_version) refl) in
      let tallies : m.tally ≡ m'.tally =
        m.is_tally
        ∙ asked
        ∙ ap (λ e. (ask_all p backend url mv' 0 e.records no_answers m'.started).0) same
        ∙ sym m'.is_tally in
      ap (λ x. x.general_domain_regression_check) m.is_update
      ∙ ap regression_check tallies
      ∙ sym (ap (λ x. x.general_domain_regression_check) m'.is_update)

  -- A check whose computation succeeds records its row.
  pub run_drift_check-ok :
      (now : ℕ) (mv : ModelVersion) (db : EvaluationDb) (s : S) (u : EvaluationUpdate)
      → (compute_evaluation_update p backend url db.tables mv s).0 ≡ ok u
      → let (r, db', _) = run_drift_check_for_version p backend url now mv db s in
        (r ≡ ok (some (drift_check now mv u))) × (db' ≡ record_check (drift_check now mv u) mv db)
  unfolding run_drift_check_for_version
  run_drift_check-ok now mv db s u h = rw (h, run_drift_check_for_version) (refl, refl)

  -- A check whose computation fails records nothing.
  pub run_drift_check-err :
      (now : ℕ) (mv : ModelVersion) (db : EvaluationDb) (s : S) (e : EvaluationError)
      (c : ModelDriftCheck)
      → (compute_evaluation_update p backend url db.tables mv s).0 ≡ err e
      → (run_drift_check_for_version p backend url now mv db s).0 ≢ ok (some c)
  unfolding run_drift_check_for_version
  run_drift_check-err now mv db s e c h r = elim (Bool-cases (is_value_error e)) [
    | inl v ↦ let r' = rw (h, v, run_drift_check_for_version) at r in cc r'
    | inr v ↦ let r' = rw (h, v, run_drift_check_for_version) at r in cc r'
  ]

  -- If what the server answers to a prompt does not depend on its state, then a drift check of a
  -- version, with the findings of its evaluation as the baseline and the same golden set, reports
  -- no new regression and notifies nobody.
  pub steady-run_drift_check :
      (d : EvaluationTables) (db : EvaluationDb) (mv mv' : ModelVersion) (s s' : S) (now : ℕ)
      (u : EvaluationUpdate) (c : ModelDriftCheck)
      → IsSteady mv
      → IsDeployedFrom d mv u db.tables mv'
      → (compute_evaluation_update p backend url d mv s).0 ≡ ok u
      → (run_drift_check_for_version p backend url now mv' db s').0 ≡ ok (some c)
      → let (_, db', _) = run_drift_check_for_version p backend url now mv' db s' in
        (c.new_regression_detected ≡ false)
        × (db'.notifications ≡ db.notifications)
        × (db'.drift_checks ≡ db.drift_checks ++ c ∷ [])
  unfolding record_check drift_check
  steady-run_drift_check d db mv mv' s s' now u c st f h r =
      elim (Result-cases (compute_evaluation_update p backend url db.tables mv' s').0) [
        | inr (e, g) ↦ absurd (run_drift_check-err now mv' db s' e c g r)
        | inl (u', g) ↦
            let same = f.baseline ∙ steady_findings d db.tables mv mv' s s' u u' st f h g in
            let quiet : (drift_check now mv' u').new_regression_detected ≡ false =
              ap (λ x. has_new_regression x u'.general_domain_regression_check) same
              ∙ has_new_regression-same u'.general_domain_regression_check in
            let (result, written) = run_drift_check-ok now mv' db s' u' g in
            let is : drift_check now mv' u' ≡ c =
              some_injective _ c (ok_injective _ (some c) _ result r) in
            let silent = record_check-quiet (drift_check now mv' u') mv' db quiet in
            (
              ap (λ x. x.new_regression_detected) (sym is) ∙ quiet,
              ap (λ x. x.notifications) written ∙ silent.0,
              ap (λ x. x.drift_checks) written ∙ silent.1 ∙ ap (λ x. db.drift_checks ++ x ∷ []) is,
            )
      ]
