-- ===== src/Datasets/Creation.antt =====
-- New versions: their numbers, and the feedback that they may be made of.
use defnex_mlops.Base.{
  ℕ, true, List, [], ◌∷◌, ◌++◌, ◌+◌, ◌≡◌, ◌||◌, arith, none, some, ok, err, inl, inr, refl, ap,
  Bool-cases, Option-cases, List-cases, is_some, length,
}
use mathlib.Core.Path.{subst}
use defnex_mlops.Text.{Text}
use defnex_mlops.Datasets.Immutable.{versions-register_dataset}
use defnex_mlops.Feedback.{Feedback, get_feedback, is_approved}
use defnex_mlops.Datasets.{
  DatasetVersion, DatasetTables, DatasetError, feedback_not_found, feedback_not_approved, processed,
  InsertAttempt, insert_version, register_dataset, find_version, get_dataset_version,
  latest_version, numbered, append_version, missing_ids, not_approved_ids, feedback_template,
  create_dataset_version_from_feedback,
}

-- Every id is that of a feedback that is APPROVED.
abbrev pub AllApproved : List Text → List Feedback → Type 0
AllApproved [] rows = Unit
AllApproved (i ∷ ids) rows =
    ((f : Feedback) × (get_feedback i rows ≡ some f) × (is_approved f.curation_status ≡ true))
    × AllApproved ids rows

AllApproved-ids :
    (ids : List Text) (rows : List Feedback)
    → missing_ids ids rows ≡ []
    → not_approved_ids ids rows ≡ []
    → AllApproved ids rows
unfolding missing_ids not_approved_ids
AllApproved-ids [] rows m n = tt
AllApproved-ids (i ∷ ids) rows m n = elim (Option-cases (get_feedback i rows)) [
  | inl e ↦ absurd (let m' = rw (e, missing_ids) at m in cc m')
  | inr (f, e) ↦ elim (Bool-cases (is_approved f.curation_status)) [
    | inr bad ↦ absurd (let n' = rw (e, bad, not_approved_ids) at n in cc n')
    | inl good ↦ (
      (f, e, good),
      AllApproved-ids ids rows (rw (e, missing_ids) at m) (rw (e, good, not_approved_ids) at n),
    )
  ]
]

ids-AllApproved :
    (ids : List Text) (rows : List Feedback)
    → AllApproved ids rows
    → (missing_ids ids rows ≡ []) × (not_approved_ids ids rows ≡ [])
unfolding missing_ids not_approved_ids
ids-AllApproved [] rows a = (refl, refl)
ids-AllApproved (i ∷ ids) rows ((f, e, good), a) =
    let rest = ids-AllApproved ids rows a in
    (rw (e, missing_ids) rest.0, rw (e, good, not_approved_ids) rest.1)

-- How an insert that succeeded left the table: the new row is behind rows of which none has its
-- dataset and version, nor its key.
pub record Inserted (template r : DatasetVersion) (w' : DatasetTables) : Type 0 where
  pub before : List DatasetVersion
  pub appended : w'.dataset_versions ≡ before ++ r ∷ []
  pub number_free : get_dataset_version r.dataset_id r.version before ≡ none
  pub key_free : find_version r.id before ≡ none
  pub of_template : r ≡ numbered template r.id r.version

pub insert_version-Inserted :
    (template : DatasetVersion) (attempts : List InsertAttempt) (w : DatasetTables)
    (r : DatasetVersion)
    → (insert_version template attempts w).0 ≡ ok r
    → Inserted template r (insert_version template attempts w).1
unfolding insert_version
insert_version-Inserted template [] w r h = cc
insert_version-Inserted template (a ∷ attempts) w r h =
    let v = latest_version template.dataset_id w.dataset_versions + 1 in
    let row = numbered template a.key v in
    let now = a.rival w in
    elim (Bool-cases (
      a.is_locked
      || (is_some (get_dataset_version template.dataset_id v now.dataset_versions)
          || is_some (find_version a.key now.dataset_versions)))) [
            | inl e ↦ rw e (insert_version-Inserted template attempts now r (rw e at h))
            | inr e ↦
                let same : row ≡ r = ground arith in
                rw e (
                  subst
                    (λ x.
                      Inserted template x
                        (append_version row (register_dataset template.dataset_id now)))
                    same
                    (record {
                      before = now.dataset_versions;
                      appended =
                          ap (λ l. l ++ row ∷ [])
                            (versions-register_dataset template.dataset_id now);
                      number_free = ground arith;
                      key_free = ground arith;
                      of_template = refl;
                    }))
          ]

-- A version made of feedback: each id was that of an APPROVED feedback, and the row records all of
-- them and how many they are.
pub record FromFeedback (ids : List Text) (rows : List Feedback) (r : DatasetVersion)
    (w' : DatasetTables) : Type 0 where
  pub curated : AllApproved ids rows
  pub origin : r.source_feedback_ids ≡ some ids
  pub counted : r.row_count ≡ some (length ids)
  pub is_processed : r.status ≡ processed
  pub template : DatasetVersion
  pub inserted : Inserted template r w'

from_template :
    (k : ℕ) (ids : List Text) (format : ℕ) (now : ℕ) (rows : List Feedback) (r : DatasetVersion)
    (w' : DatasetTables)
    → AllApproved ids rows
    → Inserted (feedback_template k ids format now) r w'
    → FromFeedback ids rows r w'
unfolding feedback_template
from_template k ids format now rows r w' a i = record {
  curated = a;
  origin = ap (λ x. x.source_feedback_ids) i.of_template;
  counted = ap (λ x. x.row_count) i.of_template;
  is_processed = ap (λ x. x.status) i.of_template;
  template = feedback_template k ids format now;
  inserted = i;
}

-- A dataset version that was created from feedback is made of APPROVED feedback only, whose ids it
-- records, and stands under a free number; if one of the ids is missing or not APPROVED, then the
-- request fails and the tables are as they were.
pub create_dataset_version_from_feedback_outcome :
    (k : ℕ) (ids : List Text) (format : ℕ) (rows : List Feedback) (now : ℕ)
    (attempts : List InsertAttempt) (w : DatasetTables)
    → let (result, w') = create_dataset_version_from_feedback k ids format rows now attempts w in
      ((r : DatasetVersion) → result ≡ ok r → FromFeedback ids rows r w')
      × ((¬ AllApproved ids rows) → (e : DatasetError) × (result ≡ err e) × (w' ≡ w))
unfolding create_dataset_version_from_feedback
create_dataset_version_from_feedback_outcome k ids format rows now attempts w =
    elim (List-cases (missing_ids ids rows)) [
      | inr (i, is, m) ↦
          rw (m, create_dataset_version_from_feedback)
            (λ r h. cc, λ _. (feedback_not_found (i ∷ is), refl, refl))
      | inl m ↦ elim (List-cases (not_approved_ids ids rows)) [
        | inr (i, is, n) ↦
            rw (m, n, create_dataset_version_from_feedback)
              (λ r h. cc, λ _. (feedback_not_approved (i ∷ is), refl, refl))
        | inl n ↦
            let a = AllApproved-ids ids rows m n in
            rw (m, n, create_dataset_version_from_feedback)
              (
                λ r h.
                    from_template k ids format now rows r _ a
                      (insert_version-Inserted (feedback_template k ids format now) attempts w r h),
                λ bad. absurd (bad a),
              )
      ]
    ]
