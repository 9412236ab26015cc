-- ===== src/Uploads/Storage.antt =====
-- `DatasetStorage` of app/services/dataset_storage.py over the local store of
-- app/services/artifact_storage.py: the staging directories, and the objects that stay. The files of
-- the store are a list of keys with their bytes; its folders are not kept apart.
use defnex_mlops.Base.{
  ℕ, Bool, List, Option, [], ◌∷◌, ◌++◌, ◌==◌, ◌||◌, if◌then◌else◌, Result, ok, err, length, true,
  false, none, some, ltb,
}
use defnex_mlops.Text.{Text, codes, same_text}
use defnex_mlops.Uploads.{sanitize_filename, has_char, slash, is_unusable}

pub data StorageError : Type 0 where
  unsafe_filename no_files_in_staging artifact_exists : StorageError

pub record StoredFile : Type 0 where
  pub name : Text
  pub content : List ℕ

pub record StagingDir : Type 0 where
  pub staging_id : ℕ
  pub files : List StoredFile

pub record StagedUpload : Type 0 where
  pub staging_id : ℕ
  pub filename : Text
  pub size_bytes : ℕ

abbrev pub provenance_filename : Text
provenance_filename = codes "_provenance.json"

-- `Path.write_bytes`
unfoldable pub write_file : Text → List ℕ → List StoredFile → List StoredFile
write_file name b [] = record { name = name; content = b } ∷ []
write_file name b (f ∷ fs) =
    let rest = write_file name b fs in
    if same_text name f.name then record { name = name; content = b } ∷ fs else f ∷ rest

unfoldable pub read_file : Text → List StoredFile → Option (List ℕ)
read_file name [] = none
read_file name (f ∷ fs) =
    let rest = read_file name fs in if same_text name f.name then some f.content else rest

-- `p.name.startswith("_")`
unfoldable pub is_sidecar : Text → Bool
is_sidecar [] = false
is_sidecar (c ∷ _) = c == 95

-- The order of two names.
text_leb : Text → Text → Bool
text_leb [] t = true
text_leb (_ ∷ _) [] = false
text_leb (a ∷ s) (b ∷ t) = let rest = text_leb s t in if a == b then rest else ltb a b

insert_file : StoredFile → List StoredFile → List StoredFile
unfolding text_leb
insert_file f [] = f ∷ []
insert_file f (g ∷ fs) =
    let rest = insert_file f fs in if text_leb f.name g.name then f ∷ g ∷ fs else g ∷ rest

-- `_payload_files`
unfoldable pub payload_files : List StoredFile → List StoredFile
unfolding insert_file
payload_files [] = []
payload_files (f ∷ fs) =
    let rest = payload_files fs in if is_sidecar f.name then rest else insert_file f rest

unfoldable pub get_dir : ℕ → List StagingDir → Option (List StoredFile)
get_dir k [] = none
get_dir k (d ∷ ds) = let rest = get_dir k ds in if d.staging_id == k then some d.files else rest

-- `shutil.rmtree`
unfoldable pub remove_dir : ℕ → List StagingDir → List StagingDir
remove_dir k [] = []
remove_dir k (d ∷ ds) = let rest = remove_dir k ds in if d.staging_id == k then rest else d ∷ rest

abbrev pub set_dir : ℕ → List StoredFile → List StagingDir → List StagingDir
set_dir k fs ds = record { staging_id = k; files = fs } ∷ remove_dir k ds

-- Whether a file of this name would stand outside of the directory that it is put in.
unfoldable pub escapes : Text → Bool
escapes name = has_char slash name || is_unusable name

-- The sidecar beside the upload, if there is a provenance.
abbrev pub write_provenance : Option (List ℕ) → List StoredFile → List StoredFile
write_provenance none fs = fs
write_provenance (some b) fs = write_file provenance_filename b fs

-- `resolve_staged`, by the name.
unfoldable pub resolve_staged : ℕ → List StagingDir → Option Text
resolve_staged k ds = elim (get_dir k ds) [
  | none ↦ none
  | some fs ↦ elim (payload_files fs) [ [] ↦ none | f ∷ _ ↦ some f.name ]
]

module _ (is_space : ℕ → Bool) where
  -- `stage_upload`, into the directory of a new identifier. The provenance is its JSON text.
  unfoldable pub stage_upload :
      ℕ
      → Text
      → List ℕ
      → Option (List ℕ)
      → List StagingDir
      → Result StorageError StagedUpload × List StagingDir
  stage_upload k filename content provenance ds = elim (sanitize_filename is_space filename) [
    | err _ ↦ (err unsafe_filename, set_dir k [] ds)
    | ok safe_name ↦ if escapes safe_name then (err unsafe_filename, remove_dir k ds) else (
      ok (record { staging_id = k; filename = safe_name; size_bytes = length content }),
      set_dir k (write_provenance provenance (write_file safe_name content [])) ds,
    )
  ]

-- The address of a key in the store under a directory.
abbrev pub file_uri : Text → Text → Text
file_uri base_dir key = codes "file://" ++ (base_dir ++ (slash ∷ key))

-- `LocalFilesystemArtifactStorage.put_immutable`
unfoldable pub put_immutable :
    Text → Text → List ℕ → List StoredFile → Result StorageError Text × List StoredFile
put_immutable base_dir key data_bytes objects = elim (read_file key objects) [
  | some _ ↦ (err artifact_exists, objects)
  | none ↦ (ok (file_uri base_dir key), write_file key data_bytes objects)
]

module _ (str : ℕ → Text) where
  -- `dataset_version_key`
  unfoldable pub dataset_version_key : Text → ℕ → Text → Text
  dataset_version_key dataset_id version filename =
      codes "datasets/" ++ (dataset_id ++ (codes "/v" ++ (str version ++ (slash ∷ filename))))

module _ (str : ℕ → Text) (base_dir : Text) where
  -- The first payload file of a directory, into the store.
  unfoldable pub commit_payload :
      ℕ
      → Text
      → ℕ
      → List StoredFile
      → List StagingDir
      → List StoredFile
      → Result StorageError (Text × Text × ℕ) × List StagingDir × List StoredFile
  commit_payload k dataset_id version [] ds objects = (err no_files_in_staging, ds, objects)
  commit_payload k dataset_id version (source ∷ _) ds objects =
      let key = dataset_version_key str dataset_id version source.name in
      let (stored, objects') = put_immutable base_dir key source.content objects in
      elim stored [
        | err e ↦ (err e, ds, objects')
        | ok uri ↦ (ok (uri, source.name, length source.content), remove_dir k ds, objects')
      ]

  -- `commit_file`
  unfoldable pub commit_file :
      ℕ
      → Text
      → ℕ
      → List StagingDir
      → List StoredFile
      → Result StorageError (Text × Text × ℕ) × List StagingDir × List StoredFile
  commit_file k dataset_id version ds objects = elim (get_dir k ds) [
    | none ↦ commit_payload k dataset_id version [] ds objects
    | some fs ↦ commit_payload k dataset_id version (payload_files fs) ds objects
  ]
