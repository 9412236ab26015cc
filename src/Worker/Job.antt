-- ===== src/Worker/Job.antt =====
-- How a job ends: the run that an iteration of the worker processed is COMPLETED with a registered
-- model version, or FAILED.
use defnex_mlops.Base.{
  ◌∷◌, ℕ, Bool, Result, ◌≡◌, List, any, some, true, ◌++◌, Option, [], arith, ◌==◌, ◌⊎◌, ok,
  Bool-cases, inl, inr, Option-cases, Result-cases, refl, ◌∙◌,
}
use mathlib.Core.Path.{subst}
use defnex_mlops.Worker.{
  Db, WorkerSettings, become, record_failure, record_success, run_job, with_uri, with_runs,
}
use defnex_mlops.Training.{
  Runs, TrainingRun, get_run, failed, completed, valid_transition, update_run, claim_training_run,
}
use defnex_mlops.Training.Outcome.{
  complete_training_run, fail_training_run, transition, Usernames, Notice,
}
use defnex_mlops.Registry.{ModelVersion, Versions, update}
use defnex_mlops.Registry.Register.{
  register_model_version, ModelTables, is_completed, registered_version, with_artifact,
}
use defnex_mlops.Registry.Lifecycle.{Attempt, allocate_version}
use defnex_mlops.Registry.Lifecycle.Allocation.{allocate_version-Allocated}
use defnex_mlops.Orchestrator.{Site, is_exception, fault_text}

get_run-id : (k : ℕ) (t : Runs) (r : TrainingRun) → get_run k t ≡ some r → r.training_run_id ≡ k
get_run-id k [] r h = cc
get_run-id k (x ∷ t) r h = ground (arith, get_run-id k t r)

get_run-become :
    (k : ℕ) (t : Runs) (r r' : TrainingRun)
    → get_run k t ≡ some r
    → r'.training_run_id ≡ r.training_run_id
    → get_run k (update_run k (become r') t) ≡ some r'
get_run-become k [] r r' h same = cc
get_run-become k (x ∷ t) r r' h same = elim (Bool-cases (k == x.training_run_id)) [
  | inl e ↦ ground (arith, get_run-id k (x ∷ t) r h)
  | inr e ↦ ground (arith, get_run-become k t r r')
]

complete_training_run-completed :
    (users : Usernames) (now uri : ℕ) (r r' : TrainingRun) (notice : Option Notice)
    → complete_training_run users now uri r ≡ ok (r', notice)
    → (r'.status ≡ completed) × (r'.training_run_id ≡ r.training_run_id)
unfolding complete_training_run transition
complete_training_run-completed users now uri r r' notice h =
    elim (Bool-cases (valid_transition r.status completed)) [
      | inl e ↦
          let h' = rw (e, transition, complete_training_run) at h in (ground arith, ground arith)
      | inr e ↦ absurd (let h' = rw (e, transition, complete_training_run) at h in cc h')
    ]

fail_training_run-failed :
    (users : Usernames) (now text : ℕ) (r r' : TrainingRun) (notice : Option Notice)
    → fail_training_run users now text r ≡ ok (r', notice)
    → (r'.status ≡ failed) × (r'.training_run_id ≡ r.training_run_id)
unfolding fail_training_run transition
fail_training_run-failed users now text r r' notice h =
    elim (Bool-cases (valid_transition r.status failed)) [
      | inl e ↦ let h' = rw (e, transition, fail_training_run) at h in (ground arith, ground arith)
      | inr e ↦ absurd (let h' = rw (e, transition, fail_training_run) at h in cc h')
    ]

-- A version of the run is in the table.
abbrev pub has_version_of : ℕ → Versions → Bool
has_version_of k = any (λ v. v.training_run_id == k)

has_version_of-append :
    (k : ℕ) (t : Versions) (r : ModelVersion)
    → r.training_run_id ≡ k
    → has_version_of k (t ++ r ∷ []) ≡ true
has_version_of-append k [] r h = ground arith
has_version_of-append k (x ∷ t) r h = ground (arith, has_version_of-append k t r h)

has_version_of-update :
    (k j : ℕ) (f : ModelVersion → ModelVersion) (t : Versions)
    → ((x : ModelVersion) → (f x).training_run_id ≡ x.training_run_id)
    → has_version_of k t ≡ true
    → has_version_of k (update j f t) ≡ true
has_version_of-update k j f [] i h = h
has_version_of-update k j f (x ∷ t) i h = ground (arith, i x, has_version_of-update k j f t i)

register_model_version-registered :
    (finalize_version : ModelVersion → ℕ → Result ℕ (ℕ × ℕ)) (attempts : List Attempt)
    (run : TrainingRun) (staging_dir : ℕ) (tables : ModelTables) (a : ModelVersion × ℕ)
    → (register_model_version finalize_version attempts run staging_dir tables).0 ≡ ok a
    → has_version_of run.training_run_id
        (register_model_version finalize_version attempts run staging_dir tables).1.versions
      ≡ true
unfolding register_model_version
register_model_version-registered finalize_version attempts run staging_dir tables a h =
    elim (Bool-cases (is_completed run.status)) [
      | inr e ↦ absurd (let h' = rw (e, register_model_version) at h in cc h')
      | inl e ↦
          elim (Option-cases
            (allocate_version (registered_version run) attempts tables.versions).0) [
              | inl n ↦ absurd (let h' = rw (e, n, register_model_version) at h in cc h')
              | inr (r, n) ↦ elim (Result-cases (finalize_version r staging_dir)) [
                | inr (x, f) ↦ absurd (let h' = rw (e, n, f, register_model_version) at h in cc h')
                | inl ((uri, checksum), f) ↦
                    let made =
                      allocate_version-Allocated (registered_version run) attempts tables.versions r
                        n in
                    rw (e, n, f, register_model_version)
                      (has_version_of-update run.training_run_id r.id (with_artifact uri checksum)
                        (allocate_version (registered_version run) attempts tables.versions).1
                        (λ x. refl)
                        (rw made.appended (
                          has_version_of-append run.training_run_id made.before r
                            made.of_template.1)))
              ]
            ]
    ]

-- The run is COMPLETED and has a registered version, or it is FAILED.
pub record Ended (k : ℕ) (db : Db) : Type 0 where
  pub row : TrainingRun
  pub stored : get_run k db.runs ≡ some row
  pub outcome :
      (row.status ≡ failed)
      ⊎ ((row.status ≡ completed) × (has_version_of k db.tables.versions ≡ true))

module _ {W : Type 0} (settings : WorkerSettings W) where
  record_failure-Ended :
      (k text : ℕ) (db : Db) (j : ℕ)
      → (record_failure settings k text db).0 ≡ ok (some j)
      → (j ≡ k) × Ended k (record_failure settings k text db).1
  unfolding record_failure
  record_failure-Ended k text db j h = elim (Option-cases (get_run k db.runs)) [
    | inl e ↦ absurd (let h' = rw (e, record_failure) at h in cc h')
    | inr (r, e) ↦ elim (Result-cases (fail_training_run settings.users settings.now text r)) [
      | inr (x, f) ↦ absurd (let h' = rw (e, f, record_failure) at h in cc h')
      | inl ((r', notice), f) ↦
          let h' = rw (e, f, record_failure) at h in
          let (is_failed, same) =
            fail_training_run-failed settings.users settings.now text r r' notice f in
          rw (e, f, record_failure)
            (
              ground arith,
              record {
                row = r';
                stored = get_run-become k db.runs r r' e same;
                outcome = inl is_failed;
              },
            )
    ]
  ]

  record_success-Ended :
      (k staging_dir : ℕ) (db : Db) (j : ℕ)
      → (record_success settings k staging_dir db).0 ≡ ok (some j)
      → (j ≡ k) × Ended k (record_success settings k staging_dir db).1
  unfolding record_success
  record_success-Ended k staging_dir db j h = elim (Option-cases (get_run k db.runs)) [
    | inl e ↦ absurd (let h' = rw (e, record_success) at h in cc h')
    | inr (r, e) ↦
        elim (Result-cases (complete_training_run settings.users settings.now staging_dir r)) [
          | inr (x, f) ↦ absurd (let h' = rw (e, f, record_success) at h in cc h')
          | inl ((r', notice), f) ↦
              elim (Result-cases
                (register_model_version settings.finalize_version settings.attempts r' staging_dir
                  db.tables).0) [
                    | inr (x, g) ↦ absurd (let h' = rw (e, f, g, record_success) at h in cc h')
                    | inl ((row, uri), g) ↦
                        let h' = rw (e, f, g, record_success) at h in
                        let (is_done, same) =
                          complete_training_run-completed settings.users settings.now staging_dir r
                            r' notice f in
                        let named : r'.training_run_id ≡ k = same ∙ get_run-id k db.runs r e in
                        let listed =
                          register_model_version-registered settings.finalize_version
                            settings.attempts r' staging_dir db.tables (row, uri) g in
                        rw (e, f, g, record_success)
                          (
                            ground arith,
                            record {
                              row = with_uri uri r';
                              stored = get_run-become k db.runs r (with_uri uri r') e same;
                              outcome = inr (
                                is_done,
                                subst
                                    (λ i.
                                      has_version_of i
                                        (register_model_version settings.finalize_version
                                          settings.attempts r' staging_dir db.tables).1.versions
                                      ≡ true)
                                    named listed,
                              );
                            },
                          )
                  ]
        ]
  ]

  -- Whatever the runner does to the database, a job that reports its run as processed leaves it FAILED,
  -- or COMPLETED with a model version of it in the registry: never RUNNING.
  pub run_job-Ended :
      (run : TrainingRun) (s : Site W Db) (k : ℕ)
      → (run_job settings run s).0 ≡ ok (some k)
      → (k ≡ run.training_run_id) × Ended run.training_run_id (run_job settings run s).1.data_of
  unfolding run_job
  run_job-Ended run s k h =
      let id = run.training_run_id in
      let t = (claim_training_run settings.max_stale_retries settings.now run s.data_of.runs).1 in
      elim (Bool-cases
        (claim_training_run settings.max_stale_retries settings.now run s.data_of.runs).0) [
          | inr c ↦ absurd (let h' = rw (c, run_job) at h in cc h')
          | inl c ↦
              let db = (settings.runner run s.host (with_runs t s.data_of)).2 in
              elim (Result-cases (settings.runner run s.host (with_runs t s.data_of)).0) [
                | inl (staging_dir, e) ↦
                    let h' = rw (c, e, run_job) at h in
                    rw (c, e, run_job) (record_success-Ended id staging_dir db k h')
                | inr (f, e) ↦ elim (Bool-cases (is_exception f)) [
                  | inr x ↦ absurd (let h' = rw (c, e, x, run_job) at h in cc h')
                  | inl x ↦
                      let h' = rw (c, e, x, run_job) at h in
                      rw (c, e, x, run_job) (record_failure-Ended id (fault_text f) db k h')
                ]
              ]
        ]
