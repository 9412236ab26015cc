-- ===== src/Evaluation/Queue.antt =====
-- The requests for an evaluation: each is consumed once, and what its evaluation found is stored.
use defnex_mlops.Base.{
  some_injective, ℕ, true, false, ◌≡◌, ◌⊎◌, arith, refl, some, ok, inl, inr, Bool-cases,
  Option-cases, Result-cases, ◌∙◌, ap, sym,
}
use mathlib.Core.Path.{subst}
use defnex_mlops.Validation.{Patterns}
use defnex_mlops.Registry.{ModelVersion, Versions, find, update}
use defnex_mlops.Registry.Update.{find-update_self}
use defnex_mlops.Registry.Lifecycle.{EvaluationUpdate, submit_evaluation, becomes_evaluated}
use defnex_mlops.Validation.Gate.{ok_injective}
use defnex_mlops.Serving.{ServingBackend}
use defnex_mlops.Evaluation.{EvaluationTables, compute_evaluation_update}
use defnex_mlops.Evaluation.Worker.{
  EvaluationDb, apply_evaluation, notify_admins, is_value_error, next_requested, unrequest,
  claim_pending_evaluation, flush_evaluation, evaluate_claimed, process_next_evaluation,
  with_versions,
}

claim-requested :
    (k : ℕ) (t : Versions) (r : ModelVersion)
    → find k t ≡ some r
    → r.evaluation_requested ≡ true
    → claim_pending_evaluation k t ≡ (true, update k unrequest t)
unfolding claim_pending_evaluation
claim-requested k t r e y = rw (e, y, claim_pending_evaluation) refl

claim-unrequested :
    (k : ℕ) (t : Versions) (r : ModelVersion)
    → find k t ≡ some r
    → r.evaluation_requested ≡ false
    → claim_pending_evaluation k t ≡ (false, t)
unfolding claim_pending_evaluation
claim-unrequested k t r e n = rw (e, n, claim_pending_evaluation) refl

-- A claim that succeeds finds the request on the row, and takes it.
claim-Taken :
    (k : ℕ) (t : Versions)
    → (claim_pending_evaluation k t).0 ≡ true
    → (r : ModelVersion) × (find k t ≡ some r) × (r.evaluation_requested ≡ true)
unfolding claim_pending_evaluation
claim-Taken k t h = elim (Option-cases (find k t)) [
  | inl e ↦ absurd (let h' = rw (e, claim_pending_evaluation) at h in cc h')
  | inr (r, e) ↦ elim (Bool-cases r.evaluation_requested) [
    | inr n ↦ absurd (let h' = rw (e, n, claim_pending_evaluation) at h in cc h')
    | inl y ↦ (r, e, y)
  ]
]

-- Of two claims of one request the second fails, and changes nothing.
pub claim_pending_evaluation_once :
    (k : ℕ) (t : Versions)
    → (claim_pending_evaluation k t).0 ≡ true
    → let t' = (claim_pending_evaluation k t).1 in claim_pending_evaluation k t' ≡ (false, t')
claim_pending_evaluation_once k t h =
    let (r, e, y) = claim-Taken k t h in
    let taken = claim-requested k t r e y in
    let found = find-update_self k unrequest t r (λ x. refl) e in
    subst (λ x. claim_pending_evaluation k x ≡ (false, x)) (sym (ap (λ x. x.1) taken))
      (claim-unrequested k (update k unrequest t) (unrequest r) found refl)

-- The row that the flush leaves is the one that the submission returned.
flush-submit :
    (u : EvaluationUpdate) (mv : ModelVersion)
    → flush_evaluation u mv mv ≡ (submit_evaluation u mv).1
unfolding submit_evaluation
flush-submit u mv = elim (Bool-cases (becomes_evaluated u mv)) [
  | inl e ↦ rw e refl
  | inr e ↦ rw e refl
]

submit_keeps_request :
    (u : EvaluationUpdate) (mv : ModelVersion)
    → (submit_evaluation u mv).1.evaluation_requested ≡ mv.evaluation_requested
unfolding submit_evaluation
submit_keeps_request u mv = elim (Bool-cases (becomes_evaluated u mv)) [
  | inl e ↦ rw e refl
  | inr e ↦ rw e refl
]

module _ {S : Type 0} (p : Patterns) (backend : ServingBackend S) (url : ℕ) where
  -- What an iteration that processed a version leaves of it: the stored row is the one that is
  -- returned, its request is consumed, and it is as it was, or carries an evaluation that was
  -- computed.
  pub record Processed (mv : ModelVersion) (mv' : ModelVersion) (db' : EvaluationDb) : Type 0 where
    pub stored : find mv.id db'.tables.versions ≡ some mv'
    pub consumed : mv'.evaluation_requested ≡ false
    pub row :
        (mv' ≡ unrequest mv)
        ⊎ ((u : EvaluationUpdate) × (d : EvaluationTables) × (s : S) × ((compute_evaluation_update p
                backend url d
                (unrequest mv)
                s).0
              ≡ ok u)
            × (mv' ≡ (submit_evaluation u (unrequest mv)).1))

  apply_evaluation-stored :
      (u : EvaluationUpdate) (mv : ModelVersion) (db : EvaluationDb)
      → find mv.id db.tables.versions ≡ some mv
      → let (mv', db') = apply_evaluation u mv db in
        (mv' ≡ (submit_evaluation u mv).1) × (find mv.id db'.tables.versions ≡ some mv')
  unfolding apply_evaluation notify_admins
  apply_evaluation-stored u mv db h =
      let written =
        find-update_self mv.id (flush_evaluation u mv) db.tables.versions mv (λ x. refl) h in
      let row = written ∙ ap some (flush-submit u mv) in
      elim (Bool-cases (submit_evaluation u mv).0) [
        | inl e ↦ (refl, rw e row)
        | inr e ↦ (refl, rw e row)
      ]

  evaluate_claimed-Processed :
      (mv mv' : ModelVersion) (db : EvaluationDb) (s : S)
      → find mv.id db.tables.versions ≡ some (unrequest mv)
      → (evaluate_claimed p backend url (unrequest mv) db s).0 ≡ ok (some mv')
      → Processed mv mv' (evaluate_claimed p backend url (unrequest mv) db s).1
  unfolding evaluate_claimed
  evaluate_claimed-Processed mv mv' db s f h =
      elim (Result-cases (compute_evaluation_update p backend url db.tables (unrequest mv) s).0) [
        | inr (e, g) ↦ elim (Bool-cases (is_value_error e)) [
          | inr v ↦ absurd (let h' = rw (g, v, evaluate_claimed) at h in cc h')
          | inl v ↦
              let h' = rw (g, v, evaluate_claimed) at h in
              let is : unrequest mv ≡ mv' = ground arith in
              rw (g, evaluate_claimed)
                (record {
                  stored = f ∙ ap some is;
                  consumed = ap (λ x. x.evaluation_requested) (sym is);
                  row = inl (sym is);
                })
        ]
        | inl (u, g) ↦
            let h' = rw (g, evaluate_claimed) at h in
            let is : (apply_evaluation u (unrequest mv) db).0 ≡ mv' =
              some_injective _ mv' (ok_injective _ (some mv') _ refl h') in
            let (submitted, written) = apply_evaluation-stored u (unrequest mv) db f in
            let row = sym is ∙ submitted in
            rw (g, evaluate_claimed)
              (record {
                stored = written ∙ ap some is;
                consumed =
                    ap (λ x. x.evaluation_requested) row ∙ submit_keeps_request u (unrequest mv);
                row = inr (u, db.tables, s, g, row);
              })
      ]

  -- An iteration of the worker that processes a version, while nobody else writes, stores the row
  -- that it returns, with its request consumed: either the row as it was, or with an evaluation that
  -- was computed for it.
  pub process_next_evaluation-Processed :
      (db : EvaluationDb) (s : S) (mv mv' : ModelVersion)
      → next_requested db.tables.versions ≡ some mv
      → find mv.id db.tables.versions ≡ some mv
      → (process_next_evaluation p backend url (λ t. t) db s).0 ≡ ok (some mv')
      → Processed mv mv' (process_next_evaluation p backend url (λ t. t) db s).1
  unfolding process_next_evaluation
  process_next_evaluation-Processed db s mv mv' n f h =
      let t = db.tables.versions in
      elim (Bool-cases (claim_pending_evaluation mv.id t).0) [
        | inr lost ↦ absurd (let h' = rw (n, lost, process_next_evaluation) at h in cc h')
        | inl won ↦
            let (r, e, y) = claim-Taken mv.id t won in
            let requested : mv.evaluation_requested ≡ true = ground arith in
            let taken = claim-requested mv.id t mv f requested in
            let found = find-update_self mv.id unrequest t mv (λ x. refl) f in
            let h' = rw (n, taken, process_next_evaluation) at h in
            rw (n, taken, process_next_evaluation)
              (evaluate_claimed-Processed mv mv' (with_versions (update mv.id unrequest t) db) s
                found h')
      ]
