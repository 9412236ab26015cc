-- ===== src/RunCreation/Gate.antt =====
-- What a run that was created rests on: a version whose latest report passes, and a pin on the bytes
-- that the report examined.
use defnex_mlops.Base.{
  ℕ, List, [], ◌≡◌, ◌≢◌, ◌<◌, ◌==◌, arith, none, some, ok, inl, inr, refl, sym, Bool-cases,
  Option-cases, Result-cases,
}
use defnex_mlops.Text.{Text}
use defnex_mlops.Json.{Json, get_field}
use defnex_mlops.Validation.{Patterns}
use defnex_mlops.Validation.Report.{
  ValidationReport, GateDecision, pass, needs_review, fail, Ratio, validate_dataset_version,
}
use defnex_mlops.Validation.Gate.{ok_injective, IsTrainable, validate_dataset_version-pass}
use defnex_mlops.Datasets.{DatasetVersion, get_dataset_version}
use defnex_mlops.Datasets.Pinning.{Fetched, Resolved, hf_dataset_key}
use defnex_mlops.RunCreation.{
  StoredReport, PinnedRun, RunRequest, CreationDb, get_latest_validation_report, trains_on,
  check_report, new_run, create_checked,
}

trains_on-pass :
    (report : ValidationReport) (u : Unit)
    → trains_on report ≡ ok u
    → (report.gate_decision ≡ pass) × (0 < report.record_count)
trains_on-pass report u h = passes report.gate_decision refl
  where
    passes :
        (g : GateDecision)
        → report.gate_decision ≡ g
        → (report.gate_decision ≡ pass) × (0 < report.record_count)
    passes fail e = absurd (let h' = rw e at h in cc h')
    passes needs_review e = absurd (let h' = rw e at h in cc h')
    passes pass e = elim (Bool-cases (report.record_count == 0)) [
      | inl z ↦ absurd (let h' = rw e at h in let h'' = rw z at h' in cc h'')
      | inr nz ↦ (e, ground arith)
    ]

module _ (spell : ℕ → Text) where
  -- What a new run rests on: the stored version that was asked for, whose latest report passes and
  -- examined at least one record; the row is the new run of that version.
  pub record Gated (k now : ℕ) (q : RunRequest) (db : CreationDb) (r : PinnedRun) : Type 0 where
    pub version : DatasetVersion
    pub latest : StoredReport
    pub is_version :
        get_dataset_version q.dataset_id q.dataset_version db.dataset_versions ≡ some version
    pub is_latest : get_latest_validation_report version.id db.reports ≡ some latest
    pub passes : latest.report.gate_decision ≡ pass
    pub nonempty : 0 < latest.report.record_count
    pub row : r ≡ new_run spell k now version db.reports q

  pub create_checked-Gated :
      (k now : ℕ) (q : RunRequest) (db : CreationDb) (r : PinnedRun)
      → (create_checked spell k now q db).0 ≡ ok r
      → Gated k now q db r
  unfolding create_checked check_report
  create_checked-Gated k now q db r h =
      elim (Option-cases (get_dataset_version q.dataset_id q.dataset_version db.dataset_versions)) [
        | inl e ↦ absurd (let h' = rw (e, create_checked) at h in cc h')
        | inr (v, e) ↦ elim (Option-cases (get_latest_validation_report v.id db.reports)) [
          | inl f ↦ absurd (let h' = rw (e, f, create_checked) at h in cc h')
          | inr (latest, f) ↦ elim (Result-cases (trains_on latest.report)) [
            | inr (x, g) ↦
                absurd (let h' = rw (e, f, create_checked) at h in let h'' = rw g at h' in cc h'')
            | inl (u, g) ↦
                let h' = rw (e, f, create_checked) at h in
                let h'' = rw g at h' in
                let (passes, nonempty) = trains_on-pass latest.report u g in
                record {
                  version = v;
                  latest = latest;
                  is_version = e;
                  is_latest = f;
                  passes = passes;
                  nonempty = nonempty;
                  row = sym (ok_injective _ r _ refl h'');
                }
          ]
        ]
      ]

  -- If the latest report of the version is what the validation of some records against an eval set
  -- returned, then a run that is created trains on a version whose records are clean, distinct and
  -- disjoint from the eval set.
  pub create_checked-IsTrainable :
      (k now : ℕ) (q : RunRequest) (db : CreationDb) (r : PinnedRun) (p : Patterns) (ratio : Ratio)
      (records evals : List Json)
      → (create_checked spell k now q db).0 ≡ ok r
      → ((v : DatasetVersion) (latest : StoredReport)
          → get_dataset_version q.dataset_id q.dataset_version db.dataset_versions ≡ some v
          → get_latest_validation_report v.id db.reports ≡ some latest
          → validate_dataset_version p ratio records evals ≡ ok latest.report)
      → IsTrainable p evals records
  create_checked-IsTrainable k now q db r p ratio records evals h from =
      let g = create_checked-Gated k now q db r h in
      (validate_dataset_version-pass p ratio records evals g.latest.report
          (from g.version g.latest g.is_version g.is_latest)).0
        g.passes

  -- What a created run trains on: the copy of the pinned object, and no other dataset; its bytes have
  -- the checksum of the report that passed, where that report has one.
  pub record TrainsOnReported (fetch_to : Text → Fetched) (sha256 : List ℕ → Text)
      (local_path : Text) (q : RunRequest) (db : CreationDb) (resolved : Resolved) : Type 0 where
    pub version : DatasetVersion
    pub latest : StoredReport
    pub is_latest : get_latest_validation_report version.id db.reports ≡ some latest
    pub passes : latest.report.gate_decision ≡ pass
    pub content : List ℕ
    pub is_copied : resolved.content ≡ some content
    pub matches : latest.content_hash ≢ [] → sha256 content ≡ latest.content_hash
    pub no_fallback : get_field hf_dataset_key resolved.config ≡ none
