-- ===== src/Uploads/Commit.antt =====
-- What becomes of an upload that is staged and then committed.
use defnex_mlops.Base.{
  ℕ, List, Option, [], ◌∷◌, ◌==◌, ◌≡◌, ◌∙◌, true, false, none, some, refl, Bool-cases, inl, inr,
  sym, ==_refl, Bool, err, ok, Result-cases, length, ◌⊎◌, ap,
}
use mathlib.Core.Path.{subst}
use defnex_mlops.Text.{Text, same_text, same_text_refl, same_text_eq}
use defnex_mlops.Uploads.Storage.{
  file_uri, StoredFile, StagingDir, provenance_filename, write_file, read_file, is_sidecar,
  payload_files, get_dir, remove_dir, write_provenance, set_dir, commit_file, resolve_staged,
  StagedUpload, commit_payload, stage_upload, dataset_version_key, no_files_in_staging,
  put_immutable, escapes,
}
use defnex_mlops.Uploads.{sanitize_filename}
use defnex_mlops.Validation.Gate.{ok_injective}

read_file-write_file :
    (name : Text) (b : List ℕ) (fs : List StoredFile)
    → read_file name (write_file name b fs) ≡ some b
unfolding read_file write_file
read_file-write_file name b [] = rw (same_text_refl name) refl
read_file-write_file name b (f ∷ fs) =
    let rest = read_file-write_file name b fs in
    elim (Bool-cases (same_text name f.name)) [
      | inl e ↦ rw (e, same_text_refl name) refl
      | inr e ↦ rw (e, e) rest
    ]

get_dir-remove_dir : (k : ℕ) (ds : List StagingDir) → get_dir k (remove_dir k ds) ≡ none
unfolding get_dir remove_dir
get_dir-remove_dir k [] = refl
get_dir-remove_dir k (d ∷ ds) =
    let rest = get_dir-remove_dir k ds in
    elim (Bool-cases (d.staging_id == k)) [ inl e ↦ rw e rest | inr e ↦ rw (e, e) rest ]

get_dir-set_dir :
    (k : ℕ) (fs : List StoredFile) (ds : List StagingDir) → get_dir k (set_dir k fs ds) ≡ some fs
unfolding get_dir
get_dir-set_dir k fs ds = rw (==_refl k) refl

-- The provenance hides no upload that is no sidecar, and shows none that is one.
payload_shown :
    (name : Text) (b : List ℕ) (provenance : Option (List ℕ))
    → is_sidecar name ≡ false
    → payload_files (write_provenance provenance (write_file name b []))
      ≡ record { name = name; content = b } ∷ []
unfolding payload_files write_file is_sidecar
payload_shown name b none h = rw h refl
payload_shown name b (some q) h = elim (Bool-cases (same_text provenance_filename name)) [
  | inl e ↦ absurd (
      let h' =
        subst (λ s. is_sidecar s ≡ false) (sym (same_text_eq provenance_filename name e)) h in
      cc h')
  | inr e ↦ rw (e, h) refl
]

payload_hidden :
    (name : Text) (b : List ℕ) (provenance : Option (List ℕ))
    → is_sidecar name ≡ true
    → payload_files (write_provenance provenance (write_file name b [])) ≡ []
unfolding payload_files write_file is_sidecar
payload_hidden name b none h = rw h refl
payload_hidden name b (some q) h = elim (Bool-cases (same_text provenance_filename name)) [
  | inl e ↦ rw e refl
  | inr e ↦ rw (e, h) refl
]

module _ (str : ℕ → Text) (base_dir : Text) (k : ℕ) (dataset_id : Text) (version : ℕ) where
  -- A commit that put the bytes of the upload under the key of its version.
  pub record Committed (name : Text) (content : List ℕ) (ds : List StagingDir)
      (objects : List StoredFile) : Type 0 where
    pub no_sidecar : is_sidecar name ≡ false
    pub returned :
        (commit_file str base_dir k dataset_id version ds objects).0
        ≡ ok (
          file_uri base_dir (dataset_version_key str dataset_id version name),
          name,
          length content,
        )
    pub readable :
        read_file
          (dataset_version_key str dataset_id version name)
          (commit_file str base_dir k dataset_id version ds objects).2
        ≡ some content
    pub unstaged : get_dir k (commit_file str base_dir k dataset_id version ds objects).1 ≡ none

  -- A commit that finds no file, and changes nothing.
  pub record Hidden (name : Text) (ds : List StagingDir) (objects : List StoredFile) : Type 0 where
    pub sidecar : is_sidecar name ≡ true
    pub unresolved : resolve_staged k ds ≡ none
    pub refused :
        commit_file str base_dir k dataset_id version ds objects
        ≡ (err no_files_in_staging, ds, objects)

  put_immutable_free :
      (key : Text) (b : List ℕ) (objects : List StoredFile)
      → read_file key objects ≡ none
      → put_immutable base_dir key b objects
        ≡ (ok (file_uri base_dir key), write_file key b objects)
  unfolding put_immutable
  put_immutable_free key b objects free = rw (put_immutable, free) refl

  commit_file_shown :
      (f : StoredFile) (fs : List StoredFile) (ds : List StagingDir) (objects : List StoredFile)
      → get_dir k ds ≡ some fs
      → payload_files fs ≡ f ∷ []
      → read_file (dataset_version_key str dataset_id version f.name) objects ≡ none
      → commit_file str base_dir k dataset_id version ds objects ≡ (
        ok (
          file_uri base_dir (dataset_version_key str dataset_id version f.name),
          f.name,
          length f.content,
        ),
        remove_dir k ds,
        write_file (dataset_version_key str dataset_id version f.name) f.content objects,
      )
  unfolding commit_file commit_payload
  commit_file_shown f fs ds objects found shown free =
      let key = dataset_version_key str dataset_id version f.name in
      let stored = put_immutable_free key f.content objects free in
      rw (commit_file, found, shown, commit_payload, stored)
        (ap (λ x. (ok (file_uri base_dir key, f.name, length f.content), remove_dir k ds, x.1))
          stored)

  commit-Committed :
      (name : Text) (content : List ℕ) (provenance : Option (List ℕ)) (ds : List StagingDir)
      (objects : List StoredFile)
      → is_sidecar name ≡ false
      → read_file (dataset_version_key str dataset_id version name) objects ≡ none
      → Committed name content
          (set_dir k (write_provenance provenance (write_file name content [])) ds)
          objects
  commit-Committed name content provenance ds objects h free =
      let fs = write_provenance provenance (write_file name content []) in
      let key = dataset_version_key str dataset_id version name in
      let done =
        commit_file_shown (record { name = name; content = content }) fs (set_dir k fs ds) objects
          (get_dir-set_dir k fs ds) (payload_shown name content provenance h) free in
      record {
        no_sidecar = h;
        returned = ap (λ x. x.0) done;
        readable = ap (λ x. read_file key x.2) done ∙ read_file-write_file key content objects;
        unstaged = ap (λ x. get_dir k x.1) done ∙ get_dir-remove_dir k (set_dir k fs ds);
      }

  commit-Hidden :
      (name : Text) (content : List ℕ) (provenance : Option (List ℕ)) (ds : List StagingDir)
      (objects : List StoredFile)
      → is_sidecar name ≡ true
      → Hidden name
          (set_dir k (write_provenance provenance (write_file name content [])) ds)
          objects
  unfolding commit_file commit_payload resolve_staged
  commit-Hidden name content provenance ds objects h =
      let fs = write_provenance provenance (write_file name content []) in
      let found = get_dir-set_dir k fs ds in
      let hidden = payload_hidden name content provenance h in
      record {
        sidecar = h;
        unresolved = rw (resolve_staged, found, hidden) refl;
        refused = rw (commit_file, found, hidden) refl;
      }

  module _ (is_space : ℕ → Bool) where
    -- An upload that is accepted stands in its directory under the name that is returned.
    staged :
        (filename : Text) (content : List ℕ) (provenance : Option (List ℕ)) (ds : List StagingDir)
        (u : StagedUpload)
        → (stage_upload is_space k filename content provenance ds).0 ≡ ok u
        → (stage_upload is_space k filename content provenance ds).1
          ≡ set_dir k (write_provenance provenance (write_file u.filename content [])) ds
    unfolding stage_upload
    staged filename content provenance ds u h =
        elim (Result-cases (sanitize_filename is_space filename)) [
          | inr (e, g) ↦ absurd (let h' = rw (g, stage_upload) at h in cc h')
          | inl (safe_name, g) ↦ elim (Bool-cases (escapes safe_name)) [
            | inl out ↦ absurd (let h' = rw (g, out, stage_upload) at h in cc h')
            | inr within ↦
                let h' = rw (g, within, stage_upload) at h in
                let same = ap (λ x. x.filename) (ok_injective _ u _ refl h') in
                rw (stage_upload, g, within, sym same) refl
          ]
        ]

    -- An upload that is accepted is committed, if the key of its version is free, with its bytes under the name
    -- that it was staged with; but if this name begins with an underscore, the staged file is not
    -- found, and the commit is refused.
    pub stage_upload-commit_file :
        (filename : Text) (content : List ℕ) (provenance : Option (List ℕ)) (ds : List StagingDir)
        (u : StagedUpload) (objects : List StoredFile)
        → (stage_upload is_space k filename content provenance ds).0 ≡ ok u
        → read_file (dataset_version_key str dataset_id version u.filename) objects ≡ none
        → Committed u.filename content
            (stage_upload is_space k filename content provenance ds).1
            objects
          ⊎ Hidden u.filename (stage_upload is_space k filename content provenance ds).1 objects
    stage_upload-commit_file filename content provenance ds u objects h free =
        rw (staged filename content provenance ds u h) (elim (Bool-cases (is_sidecar u.filename)) [
          | inl e ↦ inr (commit-Hidden u.filename content provenance ds objects e)
          | inr e ↦ inl (commit-Committed u.filename content provenance ds objects e free)
        ])
