-- ===== src/Transfers.antt =====
-- Transfers of artifacts between hosts: app/services/artifact_transfer.py. The object storage, the SSH
-- upload and the hash are the record `Hosts`, over the state of the stores; an exception is a number.
pub mod Outcome
use defnex_mlops.Base.{
  ℕ, Bool, true, false, List, Option, [], ◌∷◌, ◌++◌, ◌==◌, if◌then◌else◌, none, some, not, Result,
  ok, err,
}

pub data TransferStatus : Type 0 where
  waiting transferring finished broken : TransferStatus

-- What stands in `error_message`.
pub data TransferMessage : Type 0 where
  checksum_differs : ℕ → ℕ → TransferMessage
  raised_text : ℕ → TransferMessage

pub record ArtifactTransfer : Type 0 where
  pub transfer_id : ℕ
  pub artifact_uri : ℕ
  pub source_host : ℕ
  pub target_host : ℕ
  pub checksum_before : ℕ
  pub checksum_after : Option ℕ
  pub status : TransferStatus
  pub created_at : ℕ
  pub completed_at : Option ℕ
  pub error_message : Option TransferMessage

pub data TransferError : Type 0 where
  transfer_not_found not_completed_yet verification_failed : TransferError
  storage_failure : ℕ → TransferError

-- Whether an address is one of the object storage; `_compute_artifact_checksum` of what an address
-- names; the two ways to copy, to the target of a transfer.
pub record Hosts (W : Type 0) : Type 0 where
  pub is_s3 : ℕ → Bool
  pub compute_checksum : ℕ → W → Result ℕ ℕ
  pub copy_object : ArtifactTransfer → W → Result ℕ Unit × W
  pub ssh_transfer : ArtifactTransfer → W → Result ℕ Unit × W

abbrev pub is_finished : TransferStatus → Bool
is_finished finished = true
is_finished _ = false

-- `db.get(ArtifactTransfer, id)`
abbrev pub get_transfer : ℕ → List ArtifactTransfer → Option ArtifactTransfer
get_transfer k [] = none
get_transfer k (r ∷ t) = if k == r.transfer_id then some r else get_transfer k t

-- The row, written back.
abbrev pub put_transfer : ArtifactTransfer → List ArtifactTransfer → List ArtifactTransfer
put_transfer x [] = []
put_transfer x (r ∷ t) = if x.transfer_id == r.transfer_id then x ∷ t else r ∷ put_transfer x t

abbrev pub failed_with : TransferMessage → ℕ → ArtifactTransfer → ArtifactTransfer
failed_with message now x = record x {
  status = broken;
  error_message = some message;
  completed_at = some now;
}

module _ {W : Type 0} (hosts : Hosts W) where
  -- `initiate_transfer`
  unfoldable pub initiate_transfer :
      ℕ
      → ℕ
      → ℕ
      → ℕ
      → ℕ
      → List ArtifactTransfer
      → W
      → Result TransferError ArtifactTransfer × List ArtifactTransfer
  initiate_transfer k uri source target now t w = elim (hosts.compute_checksum uri w) [
    | err e ↦ (err (storage_failure e), t)
    | ok c ↦
        let x : ArtifactTransfer = record {
          transfer_id = k;
          artifact_uri = uri;
          source_host = source;
          target_host = target;
          checksum_before = c;
          checksum_after = none;
          status = waiting;
          created_at = now;
          completed_at = none;
          error_message = none;
        } in
        (ok x, t ++ x ∷ [])
  ]

  -- `_copy_artifact`
  unfoldable pub copy_artifact : ArtifactTransfer → W → Result ℕ Unit × W
  copy_artifact x w =
      if x.source_host == x.target_host
      then (ok tt, w)
      else if hosts.is_s3 x.artifact_uri
      then hosts.copy_object x w
      else hosts.ssh_transfer x w

  -- The row after the copy, from the checksum that is read then.
  unfoldable pub check_copy : ℕ → ArtifactTransfer → Result ℕ ℕ → ArtifactTransfer
  check_copy now x (err e) = failed_with (raised_text e) now x
  check_copy now x (ok c) =
      let x' : ArtifactTransfer = record x { checksum_after = some c } in
      if c == x.checksum_before
      then record x' { status = finished; completed_at = some now }
      else failed_with (checksum_differs x.checksum_before c) now x'

  -- The body of the `try`.
  unfoldable pub transfer_body : ℕ → ArtifactTransfer → W → ArtifactTransfer × W
  transfer_body now x w =
      let (copied, w') = copy_artifact x w in
      elim copied [
        | err e ↦ (failed_with (raised_text e) now x, w')
        | ok _ ↦ (check_copy now x (hosts.compute_checksum x.artifact_uri w'), w')
      ]

  -- `execute_transfer`
  unfoldable pub execute_transfer :
      ℕ
      → ℕ
      → List ArtifactTransfer
      → W
      → Result TransferError ArtifactTransfer × List ArtifactTransfer × W
  execute_transfer k now t w = elim (get_transfer k t) [
    | none ↦ (err transfer_not_found, t, w)
    | some x ↦
        if is_finished x.status
        then (ok x, t, w)
        else let (x', w') = transfer_body now (record x { status = transferring }) w in
          (ok x', put_transfer x' t, w')
  ]

  -- `verify_transfer`
  unfoldable pub verify_transfer :
      ℕ
      → ℕ
      → List ArtifactTransfer
      → W
      → Result TransferError ArtifactTransfer × List ArtifactTransfer
  verify_transfer k now t w = elim (get_transfer k t) [
    | none ↦ (err transfer_not_found, t)
    | some x ↦
        if is_finished x.status
        then elim (hosts.compute_checksum x.artifact_uri w) [
          | err e ↦ (err (storage_failure e), t)
          | ok c ↦ if c == x.checksum_before then (ok x, t) else (
            err verification_failed,
            put_transfer (failed_with (checksum_differs x.checksum_before c) now x) t,
          )
        ]
        else (err not_completed_yet, t)
  ]
