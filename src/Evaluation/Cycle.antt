-- ===== src/Evaluation/Cycle.antt =====
-- One pass of the scheduled check over the deployed versions.
use defnex_mlops.Base.{
  ℕ, true, List, Option, [], ◌∷◌, ◌++◌, ◌≡◌, refl, none, some, ok, err, inl, inr, Bool-cases,
  Result-cases, ◌∙◌, ap, sym, all, map,
}
use mathlib.Core.Path.{subst}
use defnex_mlops.Validation.{Patterns}
use defnex_mlops.Registry.{ModelVersion}
use defnex_mlops.Validation.Gate.{ok_injective}
use defnex_mlops.Evaluation.Worker.{is_value_error}
use defnex_mlops.Registry.Lifecycle.{EvaluationUpdate}
use defnex_mlops.Serving.{ServingBackend}
use defnex_mlops.Evaluation.{compute_evaluation_update}
use defnex_mlops.Evaluation.Worker.{EvaluationDb, ModelDriftCheck}
use defnex_mlops.Evaluation.Drift.{
  run_drift_check_for_version, drift_check, record_check, run_checks, run_once, add_check,
  deployed_versions,
}
use defnex_mlops.Evaluation.Checks.{
  Checking, is_same_version_refl, is_about, Checked, append_nil, append_assoc, record_check-Checked,
  Checked-step, all_about_more, is_of_deployed, all-is_of_deployed,
}

module _ {S : Type 0} (p : Patterns) (backend : ServingBackend S) (url now : ℕ) where
  -- The rows that a loop made, behind those that it started with.
  pub record Made (mvs : List ModelVersion) (before results : List ModelDriftCheck)
      (d d' : EvaluationDb) : Type 0 where
    pub made : List Checking
    pub behind : results ≡ before ++ map (λ c. c.1) made
    pub checked : Checked made d d'
    pub about : all (is_about mvs) made ≡ true

  Made-none :
      (mvs : List ModelVersion) (before : List ModelDriftCheck) (d : EvaluationDb)
      → Made mvs before before d d
  Made-none mvs before d = record {
    made = [];
    behind = sym (append_nil before);
    checked = record {
      appended = sym (append_nil d.drift_checks);
      notified = sym (append_nil d.notifications);
      untouched = refl;
      admins_same = refl;
    };
    about = refl;
  }

  -- A version that is skipped.
  Made-skip :
      (mv : ModelVersion) (mvs : List ModelVersion) (before results : List ModelDriftCheck)
      (d d' : EvaluationDb)
      → Made mvs before results d d'
      → Made (mv ∷ mvs) before results d d'
  Made-skip mv mvs before results d d' m = record {
    made = m.made;
    behind = m.behind;
    checked = m.checked;
    about = all_about_more mv mvs m.made m.about;
  }

  -- A version that is checked.
  Made-step :
      (c : ModelDriftCheck) (mv : ModelVersion) (mvs : List ModelVersion)
      (before results : List ModelDriftCheck) (d d' d'' : EvaluationDb)
      → Checked ((mv, c) ∷ []) d d'
      → c.model_version_id ≡ mv.id
      → Made mvs (before ++ c ∷ []) results d' d''
      → Made (mv ∷ mvs) before results d d''
  Made-step c mv mvs before results d d' d'' now_checked own m = record {
    made = (mv, c) ∷ m.made;
    behind = m.behind ∙ append_assoc before (c ∷ []) (map (λ x. x.1) m.made);
    checked = Checked-step (mv, c) m.made d d' d'' now_checked m.checked;
    about =
        let rest = all_about_more mv mvs m.made m.about in
        let first = is_same_version_refl c mv own in rw (first, rest) refl;
  }

  drift_check_id :
      (mv : ModelVersion) (u : EvaluationUpdate) → (drift_check now mv u).model_version_id ≡ mv.id
  unfolding drift_check
  drift_check_id mv u = refl

  run_checks-step :
      (mv : ModelVersion) (mvs : List ModelVersion) (before : List ModelDriftCheck)
      (d d' : EvaluationDb) (s s' : S) (o : Option ModelDriftCheck)
      → run_drift_check_for_version p backend url now mv d s ≡ (ok o, d', s')
      → run_checks p backend url now (mv ∷ mvs) before d s
        ≡ run_checks p backend url now mvs (add_check o before) d' s'
  unfolding run_checks
  run_checks-step mv mvs before d d' s s' o e =
      ap
        (λ x. elim x.0 [
          | err f ↦ (err f, x.1, x.2)
          | ok c ↦ run_checks p backend url now mvs (add_check c before) x.1 x.2
        ])
        e

  run_checks-Made :
      (mvs : List ModelVersion) (before results : List ModelDriftCheck) (d : EvaluationDb) (s : S)
      → (run_checks p backend url now mvs before d s).0 ≡ ok results
      → Made mvs before results d (run_checks p backend url now mvs before d s).1
  unfolding run_checks run_drift_check_for_version
  run_checks-Made [] before results d s h =
      subst (λ x. Made [] before x d d) (ok_injective before results _ refl h)
        (Made-none [] before d)
  run_checks-Made (mv ∷ mvs) before results d s h =
      let s' = (compute_evaluation_update p backend url d.tables mv s).1 in
      elim (Result-cases (compute_evaluation_update p backend url d.tables mv s).0) [
        | inr (e, g) ↦ elim (Bool-cases (is_value_error e)) [
          | inr v ↦
              absurd (let h' = rw (g, v, run_checks, run_drift_check_for_version) at h in cc h')
          | inl v ↦
              let step =
                run_checks-step mv mvs before d d s s' none
                  (rw (g, v, run_drift_check_for_version) refl) in
              subst (λ x. Made (mv ∷ mvs) before results d x.1) (sym step)
                (Made-skip mv mvs before results d _
                  (run_checks-Made mvs before results d s' (ap (λ x. x.0) (sym step) ∙ h)))
        ]
        | inl (u, g) ↦
            let c = drift_check now mv u in
            let d1 = record_check c mv d in
            let step =
              run_checks-step mv mvs before d d1 s s' (some c)
                (rw (g, run_drift_check_for_version) refl) in
            subst (λ x. Made (mv ∷ mvs) before results d x.1) (sym step)
              (Made-step c mv mvs before results d d1 _ (record_check-Checked c mv d)
                (drift_check_id mv u)
                (run_checks-Made mvs (before ++ c ∷ []) results d1 s'
                  (ap (λ x. x.0) (sym step) ∙ h)))
      ]

  -- A pass that ends returns the rows that it appended. Each is about a DEPLOYED version of the table;
  -- for each that has a new regression every admin gets one notification, which names that version, and
  -- there are no others; versions, runs and golden sets are as they were.
  pub run_once-Checked :
      (d : EvaluationDb) (s : S) (results : List ModelDriftCheck)
      → (run_once p backend url now d s).0 ≡ ok results
      → (made : List Checking) × (results ≡ map (λ c. c.1) made)
        × Checked made d (run_once p backend url now d s).1
        × (all (is_of_deployed d.tables.versions) made ≡ true)
  unfolding run_once
  run_once-Checked d s results h =
      let t = d.tables.versions in
      let m = run_checks-Made (deployed_versions t) [] results d s h in
      (m.made, m.behind, m.checked, all-is_of_deployed t m.made m.about)
