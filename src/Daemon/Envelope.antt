-- ===== src/Daemon/Envelope.antt =====
-- crates/unixd/src/envelope.rs and limits.rs: the frames' contents and the bounds on a connection. `V`
-- is serde_json's `Value`.
use unixd.Prelude.{ℕ, ◌*◌, Bool, Option, Bytes, Duration, from_secs}

pub record Version : Type 0 where
  pub major : ℕ
  pub minor : ℕ

pub record Request (B : Type 0) : Type 0 where
  pub v : Version
  pub id : Bytes
  pub body : B

pub record Fault (V : Type 0) : Type 0 where
  pub code : Bytes
  pub message : Bytes
  pub retryable : Bool
  pub details : Option V

pub data Outcome (V R : Type 0) : Type 0 where
  done : R → Outcome V R  -- `Ok`
  fault : Fault V → Outcome V R  -- `Err`

pub record Response (V R : Type 0) : Type 0 where
  pub v : Version
  pub id : Bytes
  pub outcome : Outcome V R

pub record ConnectionLimits : Type 0 where
  pub max_frame_bytes : ℕ
  pub read_timeout : Duration
  pub write_timeout : Duration

-- `Default for Limits`
abbrev pub default_connection_limits : ConnectionLimits
default_connection_limits = record {
  max_frame_bytes = 16 * 1024 * 1024;
  read_timeout = from_secs 10;
  write_timeout = from_secs 10;
}
