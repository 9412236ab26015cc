-- ===== src/Feedback.antt =====
-- Feedback on responses and its curation: app/services/feedback_service.py and the models it keeps
-- in app/models/feedback.py.
pub mod Curation
pub mod Candidates
use defnex_mlops.Base.{
  ◌∷◌, if◌then◌else◌, ℕ, Bool, List, Option, Action, none, some, true, ◌++◌, [], false, ◌&&◌, ◌==◌,
  ok, suc, err,
}
use defnex_mlops.Json.{
  id_key, messages_key, metadata_key, role_key, content_key, source_key, rating_key, object, text,
  array, number, cons, nil, field, end, Fields, Json,
}
use defnex_mlops.Text.{Text, same_text, codes}
use defnex_mlops.Validation.{user_role, assistant_role}

pub data CurationStatus : Type 0 where
  awaiting approved rejected : CurationStatus

pub record Feedback : Type 0 where
  pub feedback_id : Text
  pub model_version_id : ℕ
  pub prompt : Text
  pub response : Text
  pub rating : ℕ
  pub correction : Option Text
  pub curation_status : CurationStatus
  pub submitted_by : Option ℕ
  pub submitted_at : ℕ
  pub curated_by : Option ℕ
  pub curated_at : Option ℕ

-- `FeedbackCreateRequest`
pub record FeedbackRequest : Type 0 where
  pub prompt : Text
  pub response : Text
  pub rating : ℕ
  pub correction : Option Text

-- `submit_feedback`, with the id that is drawn for the row.
unfoldable pub submit_feedback : Text → ℕ → ℕ → FeedbackRequest → List Feedback → List Feedback
submit_feedback id model_version_id now request rows =
    rows
    ++ record {
      feedback_id = id;
      model_version_id = model_version_id;
      prompt = request.prompt;
      response = request.response;
      rating = request.rating;
      correction = request.correction;
      curation_status = awaiting;
      submitted_by = none;
      submitted_at = now;
      curated_by = none;
      curated_at = none;
    }
      ∷ []

unfoldable pub is_awaiting : CurationStatus → Bool
is_awaiting awaiting = true
is_awaiting _ = false

unfoldable pub is_approved : CurationStatus → Bool
is_approved approved = true
is_approved _ = false

-- `get_feedback`
unfoldable pub get_feedback : Text → List Feedback → Option Feedback
get_feedback id [] = none
get_feedback id (r ∷ rows) = if same_text id r.feedback_id then some r else get_feedback id rows

abbrev pub curated : CurationStatus → Option ℕ → ℕ → Feedback → Feedback
curated status curated_by now r = record r {
  curation_status = status;
  curated_by = curated_by;
  curated_at = some now;
}

-- The `UPDATE` of `_curate`, and its `rowcount`.
unfoldable pub set_curation :
    Text → CurationStatus → Option ℕ → ℕ → List Feedback → ℕ × List Feedback
set_curation id status curated_by now [] = (0, [])
set_curation id status curated_by now (r ∷ rows) =
    let (n, rest) = set_curation id status curated_by now rows in
    if same_text id r.feedback_id && is_awaiting r.curation_status
    then (suc n, curated status curated_by now r ∷ rest)
    else (n, r ∷ rest)

pub data CurationError : Type 0 where
  not_pending : CurationError

-- `_curate`; the rows are those after it, also where it raises.
unfoldable pub curate :
    Text → CurationStatus → Option ℕ → ℕ → Action (List Feedback) CurationError Unit
curate id status curated_by now rows =
    let (n, rows') = set_curation id status curated_by now rows in
    if n == 1 then (ok tt, rows') else (err not_pending, rows')

-- `approve_feedback`
unfoldable pub approve_feedback : Text → Option ℕ → ℕ → Action (List Feedback) CurationError Unit
approve_feedback id curated_by now = curate id approved curated_by now

-- `reject_feedback`
unfoldable pub reject_feedback : Text → Option ℕ → ℕ → Action (List Feedback) CurationError Unit
reject_feedback id curated_by now = curate id rejected curated_by now

-- `row.correction if row.correction else row.response`
unfoldable pub ground_truth : Option Text → Text → Text
ground_truth none response = response
ground_truth (some []) response = response
ground_truth (some (c ∷ s)) response = c ∷ s

abbrev pub chat_message : Text → Text → Json
chat_message role content =
    object (field role_key (text role) (field content_key (text content) end))

-- One record of `approved_candidates_as_records`.
unfoldable pub candidate_fields : Feedback → Fields
candidate_fields r = field id_key (text r.feedback_id) (
    field messages_key
      (array (
        cons (chat_message user_role r.prompt)
          (cons (chat_message assistant_role (ground_truth r.correction r.response)) nil)))
      (field metadata_key
        (object
          (field source_key (text (codes "feedback")) (field rating_key (number r.rating) end)))
        end))

-- `approved_candidates_as_records`
unfoldable pub approved_candidates_as_records : List Feedback → List Json
approved_candidates_as_records [] = []
approved_candidates_as_records (r ∷ rows) =
    let rest = approved_candidates_as_records rows in
    if is_approved r.curation_status then object (candidate_fields r) ∷ rest else rest
