-- ===== src/Evaluation/Checks.antt =====
-- The rows and the notifications that a pass of the scheduled check makes.
use defnex_mlops.Base.{
  ℕ, Bool, true, false, List, [], ◌∷◌, ◌++◌, ◌≡◌, arith, refl, inl, inr, map, Bool-cases, ◌∙◌, ap,
  sym, all, any, ◌||◌, ◌&&◌, ◌==◌, if◌then◌else◌, ==_refl,
}
use mathlib.Core.Path.{subst}
use defnex_mlops.Registry.{ModelVersion, Versions, is_deployed}
use defnex_mlops.Evaluation.Worker.{
  EvaluationDb, ModelDriftCheck, AdminNotice, notify_admins, model_quality_drift_detected,
}
use defnex_mlops.Evaluation.Drift.{record_check, deployed_versions, sort_by_id, insert_by_id}

-- A check with the version that it is about.
abbrev pub Checking : Type 0
Checking = ModelVersion × ModelDriftCheck

-- What an admin is told of a new regression of the version.
abbrev pub alarm : ModelVersion → ℕ → AdminNotice
alarm mv admin = record {
  user_id = admin;
  notice_type = model_quality_drift_detected;
  model_id = mv.model_id;
  version = mv.version;
}

-- The notifications that a list of checks makes, in their order: at each new regression, one to every
-- admin.
abbrev pub alarms : List ℕ → List Checking → List AdminNotice
alarms admins [] = []
alarms admins (c ∷ cs) =
    let rest = alarms admins cs in
    if c.1.new_regression_detected then map (alarm c.0) admins ++ rest else rest

-- What a pass leaves, from the checks that it made: their rows are appended, each with a notification
-- to every admin exactly if it has a new regression; the versions and the runs are as they were.
pub record Checked (checks : List Checking) (d d' : EvaluationDb) : Type 0 where
  pub appended : d'.drift_checks ≡ d.drift_checks ++ map (λ c. c.1) checks
  pub notified : d'.notifications ≡ d.notifications ++ alarms d.admins checks
  pub untouched : d'.tables ≡ d.tables
  pub admins_same : d'.admins ≡ d.admins

-- Whether the check is about a version of the list, and carries its name and its number.
abbrev pub is_same_version : Checking → ModelVersion → Bool
is_same_version c mv =
    (mv.id == c.1.model_version_id)
    && ((mv.id == c.0.id) && ((mv.model_id == c.0.model_id) && (mv.version == c.0.version)))

abbrev pub is_about : List ModelVersion → Checking → Bool
is_about mvs c = any (is_same_version c) mvs

pub is_same_version_refl :
    (c : ModelDriftCheck) (mv : ModelVersion)
    → c.model_version_id ≡ mv.id
    → is_same_version (mv, c) mv ≡ true
is_same_version_refl c mv h = rw (h, ==_refl mv.id, ==_refl mv.model_id, ==_refl mv.version) refl

pub append_nil {ℓ} : {A : Type ℓ} (xs : List A) → xs ++ [] ≡ xs
append_nil [] = refl
append_nil (x ∷ xs) = ap (λ l. x ∷ l) (append_nil xs)

pub append_assoc {ℓ} : {A : Type ℓ} (xs ys zs : List A) → (xs ++ ys) ++ zs ≡ xs ++ (ys ++ zs)
append_assoc [] ys zs = refl
append_assoc (x ∷ xs) ys zs = ap (λ l. x ∷ l) (append_assoc xs ys zs)

abbrev with_check : ModelDriftCheck → EvaluationDb → EvaluationDb
with_check c d = record d { drift_checks = d.drift_checks ++ c ∷ [] }

notified-Checked :
    (b : Bool) (c : ModelDriftCheck) (mv : ModelVersion) (d : EvaluationDb)
    → c.new_regression_detected ≡ b
    → Checked ((mv, c) ∷ []) d (
        if b
        then notify_admins model_quality_drift_detected mv (with_check c d)
        else with_check c d)
unfolding notify_admins
notified-Checked true c mv d e = record {
  appended = refl;
  notified = rw (e, append_nil (map (alarm mv) d.admins)) refl;
  untouched = refl;
  admins_same = refl;
}
notified-Checked false c mv d e = record {
  appended = refl;
  notified = rw (e, append_nil d.notifications) refl;
  untouched = refl;
  admins_same = refl;
}

pub record_check-Checked :
    (c : ModelDriftCheck) (mv : ModelVersion) (d : EvaluationDb)
    → Checked ((mv, c) ∷ []) d (record_check c mv d)
unfolding record_check
record_check-Checked c mv d = notified-Checked c.new_regression_detected c mv d refl

alarms-step :
    (admins : List ℕ) (c : Checking) (cs : List Checking)
    → alarms admins (c ∷ cs) ≡ alarms admins (c ∷ []) ++ alarms admins cs
alarms-step admins c cs = elim (Bool-cases c.1.new_regression_detected) [
  | inl e ↦ rw (e, append_nil (map (alarm c.0) admins)) refl
  | inr e ↦ rw e refl
]

pub Checked-step :
    (c : Checking) (cs : List Checking) (d d' d'' : EvaluationDb)
    → Checked (c ∷ []) d d'
    → Checked cs d' d''
    → Checked (c ∷ cs) d d''
Checked-step c cs d d' d'' a b = record {
  appended =
      b.appended
      ∙ ap (λ l. l ++ map (λ x. x.1) cs) a.appended
      ∙ append_assoc d.drift_checks (c.1 ∷ []) (map (λ x. x.1) cs);
  notified =
      let later =
        subst (λ l. d''.notifications ≡ d'.notifications ++ alarms l cs) a.admins_same b.notified in
      later
      ∙ ap (λ l. l ++ alarms d.admins cs) a.notified
      ∙ append_assoc d.notifications (alarms d.admins (c ∷ [])) (alarms d.admins cs)
      ∙ ap (λ l. d.notifications ++ l) (sym (alarms-step d.admins c cs));
  untouched = b.untouched ∙ a.untouched;
  admins_same = b.admins_same ∙ a.admins_same;
}

pub all_about_more :
    (mv : ModelVersion) (mvs : List ModelVersion) (cs : List Checking)
    → all (is_about mvs) cs ≡ true
    → all (is_about (mv ∷ mvs)) cs ≡ true
all_about_more mv mvs [] h = refl
all_about_more mv mvs (c ∷ cs) h =
    let rest = all_about_more mv mvs cs (ground arith) in
    let own : is_about mvs c ≡ true = ground arith in
    elim (Bool-cases (is_same_version c mv)) [
      | inl e ↦ rw (e, rest) refl
      | inr e ↦ rw (e, own, rest) refl
    ]

any-insert_by_id :
    (q : ModelVersion → Bool) (r : ModelVersion) (t : List ModelVersion)
    → any q (insert_by_id r t) ≡ (q r || any q t)
any-insert_by_id q r [] = refl
any-insert_by_id q r (x ∷ t) = let rest = any-insert_by_id q r t in ground (arith, rest)

-- The versions of a pass are rows of the table that are DEPLOYED.
any-deployed_versions :
    (q : ModelVersion → Bool) (t : Versions)
    → any q (deployed_versions t) ≡ any (λ r. is_deployed r.status && q r) t
unfolding deployed_versions sort_by_id
any-deployed_versions q [] = refl
any-deployed_versions q (r ∷ t) =
    let rest = any-deployed_versions q t in
    elim (Bool-cases (is_deployed r.status)) [
      | inl e ↦ rw e (any-insert_by_id q r (deployed_versions t) ∙ ap (λ b. q r || b) rest)
      | inr e ↦ rw e rest
    ]

-- Whether the check is about a row of the table that is DEPLOYED, with its name and its number.
abbrev pub is_of_deployed : Versions → Checking → Bool
is_of_deployed t c = any (λ r. is_deployed r.status && is_same_version c r) t

pub all-is_of_deployed :
    (t : Versions) (cs : List Checking)
    → all (is_about (deployed_versions t)) cs ≡ true
    → all (is_of_deployed t) cs ≡ true
all-is_of_deployed t [] h = refl
all-is_of_deployed t (c ∷ cs) h =
    let same = any-deployed_versions (is_same_version c) t in
    let rest = all-is_of_deployed t cs (ground arith) in
    let own : is_about (deployed_versions t) c ≡ true = ground arith in
    rw (sym same ∙ own, rest) refl
