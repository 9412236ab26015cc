-- ===== src/Transfers/Outcome.antt =====
-- When a transfer is COMPLETED, and what that was checked against.
use defnex_mlops.Base.{
  ℕ, false, List, [], ◌∷◌, ◌≡◌, ◌↔◌, ◌==◌, arith, refl, some, Result, ok, err, inl, inr, Bool-cases,
  Result-cases, ap, ◌∙◌,
}
use defnex_mlops.Transfers.{
  ArtifactTransfer, Hosts, finished, transferring, is_finished, get_transfer, put_transfer,
  copy_artifact, check_copy, transfer_body, execute_transfer,
}

get_transfer-put_transfer :
    (k : ℕ) (x y : ArtifactTransfer) (t : List ArtifactTransfer)
    → get_transfer k t ≡ some y
    → x.transfer_id ≡ k
    → get_transfer k (put_transfer x t) ≡ some x
get_transfer-put_transfer k x y [] h e = cc
get_transfer-put_transfer k x y (r ∷ t) h e = ground (arith, get_transfer-put_transfer k x y t)

module _ {W : Type 0} (hosts : Hosts W) where
  check_copy-finished :
      (now : ℕ) (x : ArtifactTransfer) (r : Result ℕ ℕ)
      → ((check_copy hosts now x r).status ≡ finished) ↔ (r ≡ ok x.checksum_before)
  unfolding check_copy
  check_copy-finished now x (err e) = (λ h. cc, λ h. cc)
  check_copy-finished now x (ok c) = elim (Bool-cases (c == x.checksum_before)) [
    | inl e ↦ rw e (λ _. ap ok (ground arith), λ _. refl)
    | inr e ↦
        rw e
          (λ h. cc, λ h. absurd (let same : c ≡ x.checksum_before = ground arith in ground arith))
  ]

  check_copy_id :
      (now : ℕ) (x : ArtifactTransfer) (r : Result ℕ ℕ)
      → (check_copy hosts now x r).transfer_id ≡ x.transfer_id
  unfolding check_copy
  check_copy_id now x (err e) = refl
  check_copy_id now x (ok c) = elim (Bool-cases (c == x.checksum_before)) [
    | inl e ↦ rw e refl
    | inr e ↦ rw e refl
  ]

  -- The body of a transfer, by how its copy ends.
  transfer_body-finished :
      (now : ℕ) (x : ArtifactTransfer) (w : W)
      → let (copied, after) = copy_artifact hosts x w in
        let (x', w') = transfer_body hosts now x w in
        (w' ≡ after)
        × (x'.transfer_id ≡ x.transfer_id)
        × ((x'.status ≡ finished) ↔ (
            (copied ≡ ok tt)
            × (hosts.compute_checksum x.artifact_uri after ≡ ok x.checksum_before)))
  unfolding transfer_body
  transfer_body-finished now x w =
      let after = (copy_artifact hosts x w).1 in
      let read = hosts.compute_checksum x.artifact_uri after in
      elim (Result-cases (copy_artifact hosts x w).0) [
        | inr (e, c) ↦ rw (c, transfer_body) (refl, refl, (λ h. cc, λ h. cc))
        | inl (_, c) ↦
            let (there, back) = check_copy-finished now x read in
            rw (c, transfer_body)
              (refl, check_copy_id now x read, (λ h. (refl, there h), λ h. back h.1))
      ]

  -- A transfer that is executed, and was not COMPLETED, is COMPLETED exactly if the copy raised nothing
  -- and the source, read after it, has the checksum that it had at the start: nothing is read from the
  -- target. The stored row is the one that is returned.
  pub execute_transfer_outcome :
      (k now : ℕ) (t : List ArtifactTransfer) (w : W) (x : ArtifactTransfer)
      → get_transfer k t ≡ some x
      → x.transfer_id ≡ k
      → is_finished x.status ≡ false
      → let (copied, after) = copy_artifact hosts (record x { status = transferring }) w in
        let (result, t', w') = execute_transfer hosts k now t w in
        (x' : ArtifactTransfer) × (result ≡ ok x')
        × (w' ≡ after)
        × (get_transfer k t' ≡ some x')
        × ((x'.status ≡ finished) ↔ (
            (copied ≡ ok tt)
            × (hosts.compute_checksum x.artifact_uri after ≡ ok x.checksum_before)))
  unfolding execute_transfer
  execute_transfer_outcome k now t w x f i open_ =
      let y : ArtifactTransfer = record x { status = transferring } in
      let (same, id, status) = transfer_body-finished now y w in
      let x' = (transfer_body hosts now y w).0 in
      rw (f, open_, execute_transfer)
        (x', refl, same, get_transfer-put_transfer k x' x t f (id ∙ i), status)
