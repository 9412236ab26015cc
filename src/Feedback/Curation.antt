-- ===== src/Feedback/Curation.antt =====
-- Curation happens once: of several decisions on one row, whatever their order, at most the first
-- has an effect.
use defnex_mlops.Base.{
  ◌∷◌, ℕ, Bool, List, Option, Action, count, ◌≡◌, Bool-cases, err, false, true, ◌&&◌, ◌==◌, inl,
  ◌∙◌, arith, inr, refl, [],
}
use defnex_mlops.Feedback.{
  Feedback, approve_feedback, curate, set_curation, CurationStatus, reject_feedback, is_awaiting,
  CurationError, approved, not_pending, rejected,
}
use defnex_mlops.Text.{Text, same_text}

-- The number of rows under an id that still wait for curation.
abbrev awaiting_rows : Text → List Feedback → ℕ
awaiting_rows id = count (λ r. same_text id r.feedback_id && is_awaiting r.curation_status)

-- After a decision no row under the id waits.
set_curation-awaiting :
    (id : Text) (status : CurationStatus) (by : Option ℕ) (now : ℕ) (rows : List Feedback)
    → is_awaiting status ≡ false
    → awaiting_rows id (set_curation id status by now rows).1 ≡ 0
unfolding set_curation
set_curation-awaiting id status by now [] h = refl
set_curation-awaiting id status by now (r ∷ rows) h =
    let rest = set_curation-awaiting id status by now rows h in
    elim (Bool-cases (same_text id r.feedback_id && is_awaiting r.curation_status)) [
      | inl e ↦ rw (e, set_curation) (ground arith)
      | inr e ↦ rw (e, set_curation) (rw e rest)
    ]

set_curation-none :
    (id : Text) (status : CurationStatus) (by : Option ℕ) (now : ℕ) (rows : List Feedback)
    → awaiting_rows id rows ≡ 0
    → set_curation id status by now rows ≡ (0, rows)
unfolding set_curation
set_curation-none id status by now [] h = refl
set_curation-none id status by now (r ∷ rows) h =
    elim (Bool-cases (same_text id r.feedback_id && is_awaiting r.curation_status)) [
      | inl e ↦ absurd (let h' = rw e at h in ground arith)
      | inr e ↦ rw (e, set_curation-none id status by now rows (rw e at h), set_curation) refl
    ]

-- The decisions that the API has.
unfoldable pub decide : Bool → Text → Option ℕ → ℕ → Action (List Feedback) CurationError Unit
decide true id by now = approve_feedback id by now
decide false id by now = reject_feedback id by now

decide-curate :
    (approves : Bool) (id : Text) (by : Option ℕ) (now : ℕ) (rows : List Feedback)
    → (status : CurationStatus) × (is_awaiting status ≡ false)
      × (decide approves id by now rows ≡ curate id status by now rows)
unfolding decide approve_feedback reject_feedback is_awaiting
decide-curate true id by now rows = (approved, refl, refl)
decide-curate false id by now rows = (rejected, refl, refl)

curate-rows :
    (id : Text) (status : CurationStatus) (by : Option ℕ) (now : ℕ) (rows : List Feedback)
    → (curate id status by now rows).1 ≡ (set_curation id status by now rows).1
unfolding curate
curate-rows id status by now rows =
    elim (Bool-cases ((set_curation id status by now rows).0 == 1)) [
      | inl e ↦ rw (e, curate) refl
      | inr e ↦ rw (e, curate) refl
    ]

-- Of two decisions on one feedback, approvals or rejections in any order, the second fails and leaves
-- every row as the first left it.
pub curated_once :
    (first second : Bool) (id : Text) (by by' : Option ℕ) (now now' : ℕ) (rows : List Feedback)
    → let (_, rows') = decide first id by now rows in
      decide second id by' now' rows' ≡ (err not_pending, rows')
unfolding curate
curated_once first second id by by' now now' rows =
    let (status, done, e) = decide-curate first id by now rows in
    let rows' = (decide first id by now rows).1 in
    let (status', done', e') = decide-curate second id by' now' rows' in
    let gone : awaiting_rows id rows' ≡ 0 =
      rw e (
        rw (curate-rows id status by now rows)
          (set_curation-awaiting id status by now rows done)) in
    e' ∙ rw (set_curation-none id status' by' now' rows' gone, curate) refl
