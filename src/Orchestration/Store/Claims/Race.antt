-- ===== src/Orchestration/Store/Claims/Race.antt =====
-- src/orchestration/store/fs.rs: how two workers can both claim an execution.
use void_control.Base.{
  ◌≡◌, refl, ◌∙◌, ℕ, suc, Bool, true, Option, none, some, String, trim, trim_start, trim_end,
}
use void_control.Orchestration.Store.{IoResult, Io}
use void_control.Orchestration.Store.Files.{Files}
use void_control.Orchestration.Store.Claims.{
  ExecutionClaim, serialize_claim, parse_claim, claim_path, claim_execution, opened, on_existing,
  claim_written,
}
use void_control.Orchestration.Store.Files.Working.{IsWorking}
use void_control.Orchestration.Store.Claims.Taking.{claim_execution-taken, removed-claimed}

parse_claim-empty : parse_claim "" ≡ none
unfolding parse_claim trim trim_start trim_end
parse_claim-empty = refl

module _ {D P H : Type 0} (files : Files D P H) (text_at : P → D → Option String)
    (works : IsWorking files text_at) where
  -- On a disk that does not fail, where no claim is there, two workers can both be told that the execution is
  -- theirs: when one has made the file and not yet written it, the whole call of the other ends with yes, and
  -- the first, which then goes on to write the file that it has open, answers yes as well.
  pub claims_race :
      (fuel : ℕ) (id other : String) (claim : ExecutionClaim) (retry : D → Option (Io Bool × D))
      (d : D)
      → text_at (claim_path files id) d ≡ none
      → (h : H) × (d1 : D) × (files.create_new (claim_path files id) d ≡ (IoResult.ok h, d1))
        × (d2 : D) × (claim_execution files (suc (suc fuel)) id other d1
            ≡ some (IoResult.ok true, d2))
        × (d3 : D) × (opened files id claim retry (IoResult.ok h, d2) ≡ some (IoResult.ok true, d3))
  claims_race fuel id other claim retry d free =
      let (h, d1, created, empty, writes) = works.made (claim_path files id) d free in
      let (e, seen, there) =
        claim_execution-taken files text_at works (suc fuel) id other d1 "" empty in
      let (now, d2, claimed, holds) =
        removed-claimed files text_at works fuel id other e "" there in
      let (d3, wrote) = works.open_written h (serialize_claim claim) d2 in
      (
        h,
        d1,
        created,
        d2,
        seen ∙ (unfold on_existing in (rw parse_claim-empty claimed)),
        d3,
        unfold opened claim_written in (rw wrote refl),
      )
