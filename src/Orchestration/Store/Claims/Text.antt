-- ===== src/Orchestration/Store/Claims/Text.antt =====
-- src/orchestration/store/fs.rs: the text of a claim is read back.
use void_control.Base.{
  ◌≡◌, refl, sym, ap, ◌∙◌, ◌≤◌, true, false, some, String, ◌&◌, AllChars, not_char, cons_char,
  is_empty_text, starts_solid, trim, trim-decimal, split_once-append, decimal, u64_max,
  parse_number-decimal, is_whitespace,
}
use text.Mathlib.TextLemmas
use text.Mathlib.TextLemmas.{cons-append, nil-append}
use void_control.Orchestration.Store.Claims.{ExecutionClaim, serialize_claim, parse_claim, claim_of}

-- The worker's id holds no bar and starts with no white space, and the time is of 64 bits.
pub record IsReadable (claim : ExecutionClaim) : Type 0 where
  pub no_bar : AllChars (not_char "|") claim.worker_id
  pub solid : starts_solid claim.worker_id ≡ true
  pub time_small : claim.claimed_at_ms ≤ u64_max

starts_solid-bar : (s t : String) → starts_solid s ≡ true → starts_solid ((s & "|") & t) ≡ true
starts_solid-bar String.[] t h = rw (nil-append, cons-append) (unfold is_whitespace in refl)
starts_solid-bar (String.◌∷◌ c s) t h = rw (cons-append, cons-append) h

is_empty_text-bar : (s t : String) → is_empty_text (s & cons_char "|" t) ≡ false
is_empty_text-bar String.[] t = rw nil-append refl
is_empty_text-bar (String.◌∷◌ c s) t = rw cons-append refl

-- A claim is read back from its text.
pub parse_claim-serialize_claim :
    (claim : ExecutionClaim) → IsReadable claim → parse_claim (serialize_claim claim) ≡ some claim
unfolding parse_claim serialize_claim claim_of
parse_claim-serialize_claim claim r =
    rw
      (
        trimmed,
        is_empty_text-bar claim.worker_id (decimal claim.claimed_at_ms),
        split_once-append "|" claim.worker_id (decimal claim.claimed_at_ms) r.no_bar,
        parse_number-decimal u64_max claim.claimed_at_ms r.time_small,
      )
      refl
  where
    regroup :
        (claim.worker_id & "|") & decimal claim.claimed_at_ms
        ≡ claim.worker_id & cons_char "|" (decimal claim.claimed_at_ms)
    regroup =
        TextLemmas.append_assoc claim.worker_id "|" (decimal claim.claimed_at_ms)
        ∙ ap (λ s. claim.worker_id & s) (rw (cons-append, nil-append) refl)

    trimmed :
        trim (claim.worker_id & "|" & decimal claim.claimed_at_ms)
        ≡ claim.worker_id & cons_char "|" (decimal claim.claimed_at_ms)
    trimmed =
        ap trim (sym (TextLemmas.append_assoc claim.worker_id "|" (decimal claim.claimed_at_ms)))
        ∙ trim-decimal (claim.worker_id & "|") claim.claimed_at_ms
            (starts_solid-bar claim.worker_id (decimal claim.claimed_at_ms) r.solid)
        ∙ regroup
