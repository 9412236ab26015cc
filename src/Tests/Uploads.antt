-- ===== src/Tests/Uploads.antt =====
-- An upload of a Windows client that is staged and committed.
use defnex_mlops.Uploads.Storage.{read_file}
use defnex_mlops.Uploads.Storage.{escapes}
use defnex_mlops.Uploads.{to_slashes}
use defnex_mlops.Uploads.{last_component}
use defnex_mlops.Text.{same_text}
use defnex_mlops.Uploads.{is_unusable}
use defnex_mlops.Base.{
  ℕ, Bool, ◌==◌, ◌≡◌, ◌↔◌, ◌⊎◌, ◌∷◌, [], List, ok, err, some, refl, Option, ◌+◌,
}
use defnex_mlops.Text.{Text, codes, strip}
use defnex_mlops.Uploads.{sanitize_filename, nul_byte, no_usable_component}
use defnex_mlops.Uploads.Filename.{IsComponent, sanitize_filename-IsComponent}
use defnex_mlops.Uploads.Storage.{StagedUpload, stage_upload}
use defnex_mlops.Uploads.Commit.{Committed, Hidden, stage_upload-commit_file}

abbrev blank : ℕ → Bool
blank x = x == 32

abbrev digits : ℕ → Text
digits n = (48 + n) ∷ []

abbrev root : Text
root = codes "/data/artifacts"

abbrev client_name : Text
client_name = codes "C:\\data/ train.csv"

sanitized : sanitize_filename blank client_name ≡ ok (codes "train.csv")
unfolding sanitize_filename is_unusable same_text strip last_component to_slashes
sanitized = refl

parent_refused : sanitize_filename blank (codes "a/..") ≡ err no_usable_component
unfolding sanitize_filename is_unusable same_text strip last_component to_slashes
parent_refused = refl

nul_refused : sanitize_filename blank (97 ∷ 0 ∷ []) ≡ err nul_byte
unfolding sanitize_filename
nul_refused = refl

sanitize_filename-IsComponent_example :
    IsComponent (codes "train.csv")
    × ((client_name ≡ codes "train.csv")
        ↔ (IsComponent client_name × (strip blank client_name ≡ client_name)))
unfolding sanitize_filename is_unusable same_text strip last_component to_slashes
sanitize_filename-IsComponent_example =
    sanitize_filename-IsComponent blank client_name (codes "train.csv") refl

abbrev content : List ℕ
content = 1 ∷ 2 ∷ []

abbrev provenance : Option (List ℕ)
provenance = some (3 ∷ [])

abbrev staged_upload : StagedUpload
staged_upload = record { staging_id = 4; filename = codes "train.csv"; size_bytes = 2 }

stage_upload-commit_file_example :
    let ds = (stage_upload blank 4 client_name content provenance []).1 in
    Committed digits root 4 (codes "chat") 1 (codes "train.csv") content ds []
    ⊎ Hidden digits root 4 (codes "chat") 1 (codes "train.csv") ds []
unfolding stage_upload sanitize_filename is_unusable same_text strip last_component to_slashes
    escapes read_file
stage_upload-commit_file_example =
    stage_upload-commit_file digits root 4 (codes "chat") 1 blank client_name content provenance []
      staged_upload [] refl refl
