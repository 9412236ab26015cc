-- ===== src/Tests/Boundary.antt =====
-- The retry policy, the GPU lock and a transfer on small inputs.
use defnex_mlops.Base.{
  none, ◌↔◌, true, ℕ, Bool, ◌≡◌, ltb, some, suc, ok, refl, ◌≤◌, arith, zero, ◌∷◌, [],
}
use defnex_mlops.Http.{Reply, request_with_retry, response, classify, request_error}
use defnex_mlops.Http.Policy.{request_with_retry-policy, policy, counted}
use defnex_mlops.Transfers.{
  Hosts, ArtifactTransfer, waiting, transferring, finished, copy_artifact, execute_transfer,
  get_transfer,
}
use defnex_mlops.Transfers.Outcome.{execute_transfer_outcome}
use defnex_mlops.GpuLock.{gpu_lock_total, gpu_lock}

-- A server that answers 503 twice and then 200; its state is how many requests it has seen.
abbrev server : ℕ → Reply ℕ × ℕ
server zero = (response 503 0, 1)
server (suc zero) = (request_error, 2)
server (suc (suc n)) = (response 200 9, suc (suc (suc n)))

request_with_retry-policy_example :
    let (r, delays, (n, _)) = request_with_retry some (counted server) (0, 0) in
    (r, delays, n) ≡ policy some (response 503 0) request_error (response 200 9)
request_with_retry-policy_example = request_with_retry-policy some server 0

retried_twice : request_with_retry some server 0 ≡ (ok 9, 1 ∷ 2 ∷ [], 3)
unfolding request_with_retry classify
retried_twice = refl

abbrev busy_until_20 : ℕ → Bool
busy_until_20 t = ltb t 20

lock_taken : gpu_lock busy_until_20 50 18 ≡ some 20
unfolding gpu_lock
lock_taken = refl

gpu_lock_total_example : (t : ℕ) × (gpu_lock busy_until_20 50 18 ≡ some t) × (t ≤ 25)
gpu_lock_total_example = gpu_lock_total busy_until_20 50 18 25 (omega arith) (omega arith) refl

-- The source keeps its checksum, and the copy counts the writes.
abbrev hosts : Hosts ℕ
hosts = record {
  is_s3 = λ uri. true;
  compute_checksum = λ uri w. ok 4;
  copy_object = λ x w. (ok tt, suc w);
  ssh_transfer = λ x w. (ok tt, suc w);
}

abbrev moved : ArtifactTransfer
moved = record {
  transfer_id = 6;
  artifact_uri = 90;
  source_host = 1;
  target_host = 2;
  checksum_before = 4;
  checksum_after = none;
  status = waiting;
  created_at = 10;
  completed_at = none;
  error_message = none;
}

execute_transfer_outcome_example :
    let (copied, after) = copy_artifact hosts (record moved { status = transferring }) 0 in
    let (result, t', w') = execute_transfer hosts 6 20 (moved ∷ []) 0 in
    (x' : ArtifactTransfer) × (result ≡ ok x')
    × (w' ≡ after)
    × (get_transfer 6 t' ≡ some x')
    × ((x'.status ≡ finished) ↔ ((copied ≡ ok tt) × (hosts.compute_checksum 90 after ≡ ok 4)))
execute_transfer_outcome_example =
    execute_transfer_outcome hosts 6 20 (moved ∷ []) 0 moved refl refl refl
