-- ===== src/Daemon/Client.antt =====
-- crates/unixd/src/client.rs: a call, its two frames and its errors. The socket is what the kernel does
-- with it: for each attempt at a read or a write, the instant before it, the result of setting its
-- timeout, and the result of the attempt.
pub mod Newlines
pub mod Frames
pub mod Timing
pub mod Trust
use unixd.Prelude.{
  ℕ, suc, ◌+◌, ◌-◌, Bool, true, false, not, ◌&&◌, ◌||◌, Option, none, some, Bytes, list_eq, nat_eq,
  ◌==◌, if◌then◌else◌, ltb, leb, Result, ok, err, Duration, from_secs, List, [], ◌∷◌, ◌++◌, take,
  drop, length, ascii,
}
use unixd.Daemon.Numbers.{lower_hex}
use unixd.Daemon.Envelope.{
  Version, Request, Response, Outcome, done, fault, Fault, ConnectionLimits,
  default_connection_limits,
}

-- `std::io::ErrorKind`, as far as the client tells kinds apart.
pub data IoKind : Type 0 where
  not_found connection_refused would_block timed_out interrupted : IoKind
  other : ℕ → IoKind

pub data ClientError (V : Type 0) : Type 0 where
  unavailable timeout peer_mismatch frame_too_large encode closed invalid_frame : ClientError V
  remote : Fault V → ClientError V
  io : IoKind → ClientError V

module _ {V : Type 0} where
  unfoldable pub io_error : IoKind → ClientError V
  io_error would_block = timeout
  io_error timed_out = timeout
  io_error kind = io kind

  unfoldable pub connect_error : IoKind → ClientError V
  unfolding io_error
  connect_error not_found = unavailable
  connect_error connection_refused = unavailable
  connect_error kind = io_error kind

  unfoldable pub left : ℕ → ℕ → Result (ClientError V) Duration
  left deadline now = if ltb now deadline then ok (deadline - now) else err timeout

-- How the socket takes what is written: attempts, and at last a write that takes all of the rest.
pub data Outgoing : Type 0 where
  takes_all : ℕ → Outgoing
  write_attempt : ℕ → Result IoKind (Unit {0}) → Result IoKind ℕ → Outgoing → Outgoing

-- What the socket gives to read: attempts, and at last the end of the stream.
pub data Incoming : Type 0 where
  ends : ℕ → Incoming
  read_attempt : ℕ → Result IoKind (Unit {0}) → Result IoKind Bytes → Incoming → Incoming

module _ {V : Type 0} (deadline : ℕ) where
  -- `left(deadline)?` and the timeout that it sets.
  unfoldable pub timed :
      {A : Type 0}
      → ℕ
      → Result IoKind (Unit {0})
      → Result (ClientError V) A
      → Result (ClientError V) A
  unfolding left io_error
  timed now (ok _) next = elim (left {V = V} deadline now) [ ok _ ↦ next | err e ↦ err e ]
  timed now (err kind) next = elim (left {V = V} deadline now) [
    | ok _ ↦ err (io_error kind)
    | err e ↦ err e
  ]

  -- `write_frame`: the result, and the bytes that went out.
  unfoldable pub after_write :
      Bytes
      → Result IoKind ℕ
      → (Bytes → Result (ClientError V) (Unit {0}) × Bytes)
      → Result (ClientError V) (Unit {0}) × Bytes
  unfolding io_error
  after_write rest (err interrupted) again = again rest
  after_write rest (err kind) again = (err (io_error kind), [])
  after_write rest (ok written) again =
      if written == 0
      then (err closed, [])
      else let (r, sent) = again (drop written rest) in (r, take written rest ++ sent)

  unfoldable pub timed_write :
      ℕ
      → Result IoKind (Unit {0})
      → Result (ClientError V) (Unit {0}) × Bytes
      → Result (ClientError V) (Unit {0}) × Bytes
  unfolding timed
  timed_write now set (r, sent) = elim (timed {A = Unit {0}} now set (ok tt)) [
    | ok _ ↦ (r, sent)
    | err e ↦ (err e, [])
  ]

  unfoldable pub write_frame : Outgoing → Bytes → Result (ClientError V) (Unit {0}) × Bytes
  unfolding after_write timed_write
  write_frame socket [] = (ok tt, [])
  write_frame (takes_all now) (b ∷ rest) = timed_write now (ok tt) (ok tt, b ∷ rest)
  write_frame (write_attempt now set written socket) (b ∷ rest) =
      timed_write now set (after_write (b ∷ rest) written (write_frame socket))

-- `iter().position(|byte| *byte == b'\n')`
unfoldable pub newline_at : Bytes → Option ℕ
newline_at [] = none
newline_at (b ∷ bytes) =
    if b == 10 then some 0 else elim (newline_at bytes) [ none ↦ none | some n ↦ some (suc n) ]

module _ {V : Type 0} (deadline max : ℕ) where
  -- A reading of no bytes is the end of the stream.
  unfoldable pub at_end : Bytes → ClientError V
  at_end [] = closed
  at_end (_ ∷ _) = invalid_frame

  unfoldable pub with_newline :
      Bytes → ℕ → Option ℕ → Result (ClientError V) Bytes → Result (ClientError V) Bytes
  with_newline frame start (some offset) again =
      if leb max (start + offset) then err frame_too_large else ok (take (start + offset) frame)
  with_newline frame start none again =
      if leb max (length frame) then err frame_too_large else again

  unfoldable pub after_read :
      Bytes
      → Result IoKind Bytes
      → (Bytes → Result (ClientError V) Bytes)
      → Result (ClientError V) Bytes
  unfolding io_error at_end with_newline newline_at
  after_read frame (err interrupted) again = again frame
  after_read frame (err kind) again = err (io_error kind)
  after_read frame (ok []) again = err (at_end frame)
  after_read frame (ok (b ∷ chunk)) again =
      with_newline (frame ++ b ∷ chunk) (length frame) (newline_at (b ∷ chunk))
        (again (frame ++ b ∷ chunk))

  unfoldable pub read_frame : Bytes → Incoming → Result (ClientError V) Bytes
  unfolding after_read timed
  read_frame frame (ends now) = timed deadline now (ok tt) (err (at_end frame))
  read_frame frame (read_attempt now set chunk socket) =
      timed deadline now set (after_read frame chunk (λ f. read_frame f socket))

pub record Client : Type 0 where
  pub socket : Bytes
  pub version : Version
  pub limits : ConnectionLimits
  pub deadline : Duration

-- `Client::new`, `with_deadline` and `with_limits`.
abbrev pub new : Bytes → Version → Client
new socket version = record {
  socket = socket;
  version = version;
  limits = default_connection_limits;
  deadline = from_secs 5;
}

abbrev pub with_deadline : Duration → Client → Client
with_deadline deadline client = record client { deadline = deadline }

abbrev pub with_limits : ConnectionLimits → Client → Client
with_limits limits client = record client { limits = limits }

-- A connection: the listener's user, what becomes of a frame, and what comes back for what went out.
pub record Connection : Type 0 where
  pub peer_uid : Result IoKind ℕ
  pub outgoing : Outgoing
  pub shutdown : Result IoKind (Unit {0})
  pub incoming : Bytes → Incoming

-- The calls of serde_json on the client's side.
pub record ClientCodec (V B R : Type 0) : Type 0 where
  pub to_vec : Request B → Option Bytes
  pub from_slice : Bytes → Option (Response V R)

-- crates/unixd/src/sys.rs: root listens for every agent of launchd.
unfoldable pub trusted_listener : Bool → ℕ → ℕ → Bool
trusted_listener macos own_uid uid = uid == own_uid || (macos && uid == 0)

-- `{:x}-{:x}` of the process and its count of requests.
unfoldable pub request_id : ℕ → ℕ → Bytes
unfolding lower_hex
request_id process next = lower_hex process ++ ascii "-" ++ lower_hex next

module _ {V : Type 0} where
  -- `?`
  infixl 10 ◌then◌
  abbrev pub ◌then◌ :
      {A C : Type 0}
      → Result (ClientError V) A
      → (A → Result (ClientError V) C)
      → Result (ClientError V) C
  ok a then f = f a
  err e then f = err e

  -- `map_err`
  unfoldable pub as_client :
      {A : Type 0} → (IoKind → ClientError V) → Result IoKind A → Result (ClientError V) A
  as_client f (ok a) = ok a
  as_client f (err kind) = err (f kind)

module _ {V B R : Type 0} (codec : ClientCodec V B R) (client : Client) (macos : Bool)
    (own_uid : ℕ) where
  unfoldable pub judge : Bytes → Option (Response V R) → Result (ClientError V) R
  judge id none = err invalid_frame
  judge id (some response) =
      if not (response.id == id) then err invalid_frame else elim response.outcome [
        | done r ↦
            if not (response.v.major == client.version.major) then err invalid_frame else ok r
        | fault f ↦ err (remote f)
      ]

  -- The exchange on a connection to a trusted listener.
  unfoldable pub exchange : ℕ → Bytes → Bytes → Connection → Result (ClientError V) R
  unfolding judge as_client
  exchange deadline id frame stream =
      let (written, sent) = write_frame {V = V} deadline stream.outgoing frame in
      written
      then (λ _. as_client io_error stream.shutdown)
      then (λ _. read_frame deadline client.limits.max_frame_bytes [] (stream.incoming sent))
      then (λ line. judge id (codec.from_slice line))

  unfoldable pub connected : ℕ → Bytes → Bytes → Connection → Result (ClientError V) R
  unfolding exchange as_client
  connected deadline id frame stream = as_client io_error stream.peer_uid then (λ uid.
      if not (trusted_listener macos own_uid uid)
      then err peer_mismatch
      else exchange deadline id frame stream)

  unfoldable pub with_frame :
      ℕ
      → ℕ
      → Bytes
      → (Duration → Result IoKind Connection)
      → Option Bytes
      → Result (ClientError V) R
  unfolding connected as_client
  with_frame deadline now id connect none = err encode
  with_frame deadline now id connect (some encoded) =
      if ltb client.limits.max_frame_bytes (length (encoded ++ 10 ∷ []))
      then err frame_too_large
      else left deadline now
        then (λ wait. as_client connect_error (connect wait))
        then (λ stream. connected deadline id (encoded ++ 10 ∷ []) stream)

  -- `start` and `now` are the clock at the deadline's computation and before the connect.
  unfoldable pub call :
      ℕ → ℕ → Bytes → (Duration → Result IoKind Connection) → B → Result (ClientError V) R
  unfolding with_frame
  call start now id connect body =
      with_frame (start + client.deadline) now id connect
        (codec.to_vec (record { v = client.version; id = id; body = body }))
