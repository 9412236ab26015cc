-- ===== src/Registry/Lifecycle/Evaluation.antt =====
-- What submissions add up to, and what an archive keeps.
use defnex_mlops.Base.{
  Option, or_else, ◌≡◌, arith, is_some, some, true, none, refl, ◌⊎◌, false, ok, Bool-cases, ap, inl,
  ◌&&◌, inr, sym, ◌∙◌,
}
use defnex_mlops.Registry.{
  ModelVersion, registered, evaluated, archived, Status, with_status, promoted, retired,
}
use defnex_mlops.Registry.Lifecycle.{
  EvaluationUpdate, submit_evaluation, merge, all_signals_present, archive_model_version,
  becomes_evaluated, is_registered, unarchive_model_version, in_archive_mask, in_restore_targets,
  is_archived,
}

-- One request with the fields of two, of which the later one has the last word.
abbrev pub both : EvaluationUpdate → EvaluationUpdate → EvaluationUpdate
both u u' = record {
  eval_set_id = or_else u'.eval_set_id u.eval_set_id;
  eval_set_version = or_else u'.eval_set_version u.eval_set_version;
  eval_loss_trend = or_else u'.eval_loss_trend u.eval_loss_trend;
  qualitative_comparison = or_else u'.qualitative_comparison u.qualitative_comparison;
  general_domain_regression_check =
      or_else u'.general_domain_regression_check u.general_domain_regression_check;
}

or_else_assoc {ℓ} :
    {A : Type ℓ} (a b c : Option A) → or_else a (or_else b c) ≡ or_else (or_else a b) c
or_else_assoc none b c = refl
or_else_assoc (some a) b c = refl

merge-merge :
    (u u' : EvaluationUpdate) (r : ModelVersion) → merge u' (merge u r) ≡ merge (both u u') r
merge-merge u u' r = ground (
  arith,
  or_else_assoc u'.eval_set_id u.eval_set_id r.eval_set_id,
  or_else_assoc u'.eval_set_version u.eval_set_version r.eval_set_version,
  or_else_assoc u'.eval_loss_trend u.eval_loss_trend r.eval_loss_trend,
  or_else_assoc u'.qualitative_comparison u.qualitative_comparison r.qualitative_comparison,
  or_else_assoc u'.general_domain_regression_check u.general_domain_regression_check
      r.general_domain_regression_check,
)

is_some-or_else {ℓ} :
    {A : Type ℓ} (a b : Option A) → is_some b ≡ true → is_some (or_else a b) ≡ true
is_some-or_else none b h = h
is_some-or_else (some a) b h = refl

-- A signal that was submitted stays.
all_signals_present-merge :
    (u : EvaluationUpdate) (r : ModelVersion)
    → all_signals_present r ≡ true
    → all_signals_present (merge u r) ≡ true
all_signals_present-merge u r h = ground (
  arith,
  is_some-or_else u.eval_loss_trend r.eval_loss_trend,
  is_some-or_else u.qualitative_comparison r.qualitative_comparison,
  is_some-or_else u.general_domain_regression_check r.general_domain_regression_check,
)

is_registered_only : (s : Status) → is_registered s ≡ true → s ≡ registered
unfolding is_registered
is_registered_only registered h = refl
is_registered_only s h = ground arith

becomes_evaluated_only :
    (u : EvaluationUpdate) (r : ModelVersion)
    → becomes_evaluated u r ≡ true
    → (all_signals_present (merge u r) ≡ true) × (r.status ≡ registered)
unfolding becomes_evaluated
becomes_evaluated_only u r h =
    let both_tests : (all_signals_present (merge u r) ≡ true) × (is_registered r.status ≡ true) =
      ground arith in
    (both_tests.0, is_registered_only r.status both_tests.1)

becomes_evaluated_waits :
    (u : EvaluationUpdate) (r : ModelVersion)
    → becomes_evaluated u r ≡ false
    → r.status ≡ registered
    → all_signals_present (merge u r) ≡ false
unfolding becomes_evaluated is_registered
becomes_evaluated_waits u r h e = ground arith

becomes_evaluated-merge :
    (u u' : EvaluationUpdate) (r : ModelVersion)
    → becomes_evaluated u' (merge u r) ≡ becomes_evaluated (both u u') r
unfolding becomes_evaluated
becomes_evaluated-merge u u' r =
    ap (λ x. all_signals_present x && is_registered r.status) (merge-merge u u' r)

becomes_evaluated-both :
    (u u' : EvaluationUpdate) (r : ModelVersion)
    → becomes_evaluated u r ≡ true
    → becomes_evaluated (both u u') r ≡ true
unfolding becomes_evaluated
becomes_evaluated-both u u' r h =
    let tests : (all_signals_present (merge u r) ≡ true) × (is_registered r.status ≡ true) =
      ground arith in
    let stays = all_signals_present-merge u' (merge u r) tests.0 in
    ap (λ x. all_signals_present x && is_registered r.status) (sym (merge-merge u u' r))
    ∙ rw (stays, tests.1) refl

becomes_evaluated_once :
    (u : EvaluationUpdate) (r : ModelVersion)
    → becomes_evaluated u (with_status evaluated r) ≡ false
unfolding becomes_evaluated is_registered
becomes_evaluated_once u r = elim (Bool-cases (all_signals_present (merge u r))) [
  | inl e ↦ rw e refl
  | inr e ↦ rw e refl
]

-- What one submission does to the status: a REGISTERED row with all three signals becomes EVALUATED
-- and the admins are asked for a decision; otherwise the status is the same and nobody is asked.
pub submit_evaluation_status :
    (u : EvaluationUpdate) (r : ModelVersion)
    → let (asked, r') = submit_evaluation u r in
      ((asked ≡ true)
        × (r.status ≡ registered)
        × (all_signals_present r' ≡ true)
        × (r'.status ≡ evaluated))
      ⊎ ((asked ≡ false)
          × (r'.status ≡ r.status)
          × (r.status ≡ registered → all_signals_present r' ≡ false))
unfolding submit_evaluation
submit_evaluation_status u r = elim (Bool-cases (becomes_evaluated u r)) [
  | inl e ↦
      let (present, was) = becomes_evaluated_only u r e in rw e (inl (refl, was, present, refl))
  | inr e ↦ rw e (inr (refl, refl, becomes_evaluated_waits u r e))
]

-- Partial submissions add up: two of them, one after the other, leave the row that one submission
-- of both leaves, with the later value of a field that both have.
pub submit_evaluation-both :
    (u u' : EvaluationUpdate) (r : ModelVersion)
    → (submit_evaluation u' (submit_evaluation u r).1).1 ≡ (submit_evaluation (both u u') r).1
unfolding submit_evaluation
submit_evaluation-both u u' r = elim (Bool-cases (becomes_evaluated u r)) [
  | inl e ↦
      rw (e, becomes_evaluated_once u' (merge u r), becomes_evaluated-both u u' r e)
        (ap (with_status evaluated) (merge-merge u u' r))
  | inr e ↦ elim (Bool-cases (becomes_evaluated (both u u') r)) [
    | inl e' ↦
        rw (e, becomes_evaluated-merge u u' r, e') (ap (with_status evaluated) (merge-merge u u' r))
    | inr e' ↦ rw (e, becomes_evaluated-merge u u' r, e') (merge-merge u u' r)
  ]
]

in_archive_mask-restore : (s : Status) → in_archive_mask s ≡ true → in_restore_targets s ≡ true
unfolding in_archive_mask in_restore_targets
in_archive_mask-restore promoted h = refl
in_archive_mask-restore retired h = refl
in_archive_mask-restore s h = ground arith

-- An archive is undone by restoring the status that the row had.
pub archive-unarchive :
    (r a : ModelVersion)
    → archive_model_version r ≡ ok a
    → (a.status ≡ archived) × (unarchive_model_version a r.status ≡ ok r)
unfolding archive_model_version unarchive_model_version is_archived
archive-unarchive r a h = elim (Bool-cases (in_archive_mask r.status)) [
  | inl e ↦
      let is : with_status archived r ≡ a = ground arith in
      rw (← is) (rw (in_archive_mask-restore r.status e) (refl, refl))
  | inr e ↦ ground arith
]
