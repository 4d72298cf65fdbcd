-- ===== src/Cache/Policy.antt =====
-- crates/unixd-cache/src/policy.rs: horizons and the failures that a stale entry may answer.
use unixd.Prelude.{ℕ, Bool, true, false, ◌&&◌, ◌||◌, leb, ◌==◌, nat_eq, Duration}

pub data Source : Type 0 where
  caller_default cache_control : Source

pub record Policy : Type 0 where
  pub fresh : Duration
  pub stale_if_error : Duration
  pub source : Source

unfoldable pub new : Duration → Duration → Policy
new fresh stale_if_error = record {
  fresh = fresh;
  stale_if_error = stale_if_error;
  source = caller_default;
}

unfoldable pub from_cache_control : Duration → Duration → Policy
from_cache_control fresh stale_if_error = record {
  fresh = fresh;
  stale_if_error = stale_if_error;
  source = cache_control;
}

-- Why an upstream request failed; a status is a `u16`.
pub data Failure : Type 0 where
  timeout network : Failure
  status : ℕ → Failure
  invalid_json schema_mismatch : Failure

unfoldable pub serves_stale : Failure → Bool
serves_stale timeout = true
serves_stale network = true
serves_stale (status code) = code == 429 || (leb 500 code && leb code 599)
serves_stale invalid_json = false
serves_stale schema_mismatch = false
