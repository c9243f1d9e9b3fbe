-- ===== src/Orchestration/Store/Claims/Refreshing.antt =====
-- src/orchestration/store/fs.rs: how a claim is refreshed, and by whom.
use void_control.Base.{
  ◌≡◌, ◌≢◌, refl, arith, true, false, Option, none, some, String, ◌&◌, str_eq, str_eq_iff, decimal,
}
use void_control.Orchestration.Store.{IoResult, ErrorKind, IoError}
use void_control.Orchestration.Store.Files.{Files, then_act}
use void_control.Orchestration.Store.Claims.{
  ExecutionClaim, serialize_claim, parse_claim, claim_path, refresh_claim, refresh_found, refreshed,
  atomic_replace_file,
}
use void_control.Orchestration.Store.Files.Working.{IsWorking}
use void_control.Orchestration.Store.Claims.Taking.{load_claim_record-found}

module _ {D P H : Type 0} (files : Files D P H) (text_at : P → D → Option String)
    (works : IsWorking files text_at) where
  -- A refresh by a worker that does not hold the claim is refused, and so is one where no claim can be read;
  -- neither changes the disk.
  pub refresh_claim-refused :
      (id worker : String) (d : D) (t : String)
      → text_at (claim_path files id) d ≡ some t
      → ((claim : ExecutionClaim) → parse_claim t ≡ some claim → claim.worker_id ≢ worker)
      → (e : IoError) × (refresh_claim files id worker d ≡ (IoResult.err e, d))
  unfolding refresh_claim
  refresh_claim-refused id worker d t h other =
      rw (load_claim_record-found files text_at works id d t h) (by_claim (parse_claim t) refl)
    where
      by_claim :
          (o : Option ExecutionClaim)
          → parse_claim t ≡ o
          → (e : IoError) × (then_act (IoResult.ok o, d) (refresh_found files id worker)
              ≡ (IoResult.err e, d))
      by_claim none p = (
        record { kind = ErrorKind.not_found; message = "claim not found" },
        unfold refresh_found in refl,
      )
      by_claim (some claim) p =
          let strange : str_eq claim.worker_id worker ≡ false =
            ground (arith, str_eq_iff claim.worker_id worker, other claim p) in
          (
            record {
              kind = ErrorKind.permission_denied;
              message = "claim owned by another worker";
            },
            unfold refresh_found in (rw strange refl),
          )

  -- The worker that holds the claim writes it anew, with the time of the clock; the file is replaced at once.
  pub refresh_claim-own :
      (id worker : String) (d : D) (t : String) (claim : ExecutionClaim)
      → text_at (claim_path files id) d ≡ some t
      → parse_claim t ≡ some claim
      → claim.worker_id ≡ worker
      → (d' : D) × (refresh_claim files id worker d ≡ (IoResult.ok tt, d'))
        × (text_at (claim_path files id) d'
            ≡ some (
                serialize_claim
                  (record { worker_id = worker; claimed_at_ms = (files.now_ms d).0 })))
  unfolding refresh_claim refresh_found refreshed atomic_replace_file
  refresh_claim-own id worker d t claim h p own =
      let contents : String =
        serialize_claim (record { worker_id = worker; claimed_at_ms = (files.now_ms d).0 }) in
      let d1 : D = (files.now_ms d).1 in
      let temp : P =
        files.with_extension (claim_path files id) ("tmp-" & decimal (files.now_ms d1).0) in
      let (d2, wrote, holds, others) = works.written_over temp contents (files.now_ms d1).1 in
      let (d3, moved, there) = works.renamed temp (claim_path files id) d2 contents holds in
      let same : str_eq claim.worker_id worker ≡ true = (str_eq_iff claim.worker_id worker).1 own in
      (
        d3,
        rw (load_claim_record-found files text_at works id d t h, p, same, wrote, moved) refl,
        there,
      )
