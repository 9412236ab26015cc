-- ===== src/Evaluation/Questions.antt =====
-- What the pass over a golden set counts, and what a promotion may conclude from it.
use defnex_mlops.Base.{
  ℕ, Bool, true, false, List, [], ◌∷◌, ◌+◌, ◌≡◌, arith, refl, some, ok, inl, inr, length, suc,
  Option-cases, Result-cases, length-append, sym, Option,
}
use defnex_mlops.Json.{Json}
use defnex_mlops.Validation.{Patterns}
use defnex_mlops.Validation.Report.{user_content, eval_user_contents}
use defnex_mlops.Registry.{ModelVersion, QualitativeComparison}
use defnex_mlops.Serving.{ServingBackend}
use defnex_mlops.EvalSets.{EvalSetVersion}
use defnex_mlops.Evaluation.{
  Tally, no_answers, add_answer, is_answer, EvaluationTables, update_from, golden_set, ask_all,
  evaluate_loaded, compute_evaluation_update, after_unload,
}
use defnex_mlops.Registry.Lifecycle.{EvaluationUpdate}
use defnex_mlops.Serving.{returned, raised, UnloadOutcome}

-- Every answer is counted once, and every loss leaves one regression.
record Counts (questions : ℕ) (t t' : Tally) : Type 0 where
  total : t'.wins + t'.losses ≡ t.wins + t.losses + questions
  failures : length t'.regressions + t.losses ≡ length t.regressions + t'.losses

add_answer-Counts : (b : Bool) (index : ℕ) (t : Tally) → Counts 1 t (add_answer b index t)
add_answer-Counts true index t = record { total = omega arith; failures = omega arith }
add_answer-Counts false index t =
    let longer = length-append t.regressions (index ∷ []) in
    record { total = omega arith; failures = omega (arith, longer) }

Counts-step : (n : ℕ) (t t' t'' : Tally) → Counts 1 t t' → Counts n t' t'' → Counts (suc n) t t''
Counts-step n t t' t'' c c' = record {
  total = omega (arith, c.total, c'.total);
  failures = omega (arith, c.failures, c'.failures);
}

abbrev compared : ℕ → ℕ → Option QualitativeComparison
compared w l = some (record { wins = w; losses = l })

module _ {S : Type 0} (p : Patterns) (backend : ServingBackend S) (url : ℕ) where
  after_unload_ok :
      (o : UnloadOutcome) (u u' : EvaluationUpdate)
      → after_unload p backend url o u ≡ ok u'
      → u ≡ u'
  after_unload_ok returned u u' h = ground arith
  after_unload_ok raised u u' h = cc

  ask_all-Counts :
      (mv : ModelVersion) (index : ℕ) (vs : List Json) (t : Tally) (s : S)
      → Counts (length (eval_user_contents p vs)) t (ask_all p backend url mv index vs t s).0
  unfolding ask_all eval_user_contents
  ask_all-Counts mv index [] t s = record { total = omega arith; failures = omega arith }
  ask_all-Counts mv index (v ∷ vs) t s = elim (Option-cases (user_content p v)) [
    | inl e ↦ rw (e, ask_all, eval_user_contents) (ask_all-Counts mv (suc index) vs t s)
    | inr (prompt, e) ↦
        let (r, s') = backend.generate url prompt mv.model_id mv.version s in
        let t' = add_answer (is_answer r) index t in
        rw (e, ask_all, eval_user_contents)
          (Counts-step (length (eval_user_contents p vs)) t t' _
            (add_answer-Counts (is_answer r) index t) (ask_all-Counts mv (suc index) vs t' s'))
  ]

  -- What an evaluation that was computed rests on: one answer or failure for each question of the
  -- version's golden set, one regression for each failure, and an adapter that was unloaded at the
  -- end.
  pub record Measured (d : EvaluationTables) (mv : ModelVersion) (u : EvaluationUpdate) (s' : S)
      : Type 0 where
    pub golden : EvalSetVersion
    pub tally : Tally
    pub is_golden : golden_set d mv ≡ ok golden
    pub started : S
    pub is_tally : tally ≡ (ask_all p backend url mv 0 golden.records no_answers started).0
    pub is_update : u ≡ update_from d mv tally
    pub total : tally.wins + tally.losses ≡ length (eval_user_contents p golden.records)
    pub failures : length tally.regressions ≡ tally.losses
    pub unloaded : (s : S) × (s' ≡ (backend.unload url mv.model_id mv.version s).1)

  evaluate_loaded-Measured :
      (d : EvaluationTables) (mv : ModelVersion) (e : EvalSetVersion) (s : S) (u : EvaluationUpdate)
      → golden_set d mv ≡ ok e
      → (evaluate_loaded p backend url d mv e s).0 ≡ ok u
      → Measured d mv u (evaluate_loaded p backend url d mv e s).1
  unfolding evaluate_loaded
  evaluate_loaded-Measured d mv e s u g h =
      let counts = ask_all-Counts mv 0 e.records no_answers s in
      let (t, s') = ask_all p backend url mv 0 e.records no_answers s in
      record {
        golden = e;
        tally = t;
        started = s;
        is_tally = refl;
        is_golden = g;
        is_update = sym (after_unload_ok (backend.unload url mv.model_id mv.version s').0 _ u h);
        total = omega (arith, counts.total);
        failures = omega (arith, counts.failures);
        unloaded = (s', refl);
      }

  -- An evaluation that returns an update has answered or failed every question of the version's
  -- golden set once, recorded one regression for each failure, and unloaded the adapter last.
  pub compute_evaluation_update-Measured :
      (d : EvaluationTables) (mv : ModelVersion) (s : S) (u : EvaluationUpdate)
      → (compute_evaluation_update p backend url d mv s).0 ≡ ok u
      → Measured d mv u (compute_evaluation_update p backend url d mv s).1
  unfolding compute_evaluation_update
  compute_evaluation_update-Measured d mv s u h = elim (Result-cases (golden_set d mv)) [
    | inr (e, g) ↦ absurd (let h' = rw (g, compute_evaluation_update) at h in cc h')
    | inl (e, g) ↦
        let (r, s') = backend.deploy url mv s in
        elim (Result-cases r) [
          | inr (f, l) ↦ absurd (let h' = rw (g, l, compute_evaluation_update) at h in cc h')
          | inl (_, l) ↦
              let h' = rw (g, l, compute_evaluation_update) at h in
              rw (g, l, compute_evaluation_update) (evaluate_loaded-Measured d mv e s' u g h')
        ]
  ]
