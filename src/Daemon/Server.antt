-- ===== src/Daemon/Server.antt =====
-- crates/unixd/src/server.rs: one connection, from its peer's user to the response frame. `serde_json`
-- and the line codec of tokio_util are parameters; a handler is a function on a state of its own, so
-- that one can see whether it ran.
pub mod Silence
use unixd.Prelude.{
  ℕ, ◌-◌, Bool, true, false, not, Option, none, some, Bytes, nat_eq, ◌==◌, if◌then◌else◌, ascii,
  List, [], ◌∷◌, ◌++◌, take, Result, ok, err,
}
use unixd.Daemon.Numbers.{decimal}
use unixd.Daemon.Envelope.{
  Version, Request, Response, Outcome, done, fault, Fault, ConnectionLimits,
}

pub record Failure (V Err : Type 0) : Type 0 where
  pub code : Err → Bytes
  pub retryable : Err → Bool
  pub details : Err → Option V
  pub to_string : Err → Bytes

-- The state's change stays when the handler fails.
pub record Handler (St Req Resp Err : Type 0) : Type 0 where
  pub handle : Req → St → Result Err Resp × St

-- The calls of serde_json and tokio_util on the server's side: `from_str` of an envelope, `from_value`
-- of its body, `to_vec` of a response, the `json!` object of the two majors, and the first item of
-- `FramedRead` with a `LinesCodec` of a maximal length over what its reader gives (`none` for an
-- error and for the end of the stream).
pub record ServerCodec (V Req Resp : Type 0) : Type 0 where
  pub from_str : Bytes → Option (Request V)
  pub from_value : V → Option Req
  pub to_vec : Response V Resp → Option Bytes
  pub majors : ℕ → ℕ → V
  pub next_line : ℕ → Bytes → Option Bytes

-- What the connection does: the user of its peer, what it sends before it closes or waits, and whether
-- that makes a whole frame within the read timeout.
pub record Accepted : Type 0 where
  pub peer_uid : Option ℕ
  pub arrives : Bytes
  pub in_time : Bool

-- `frame.push(b'\n')`
unfoldable pub encoded : Option Bytes → Option Bytes
encoded none = none
encoded (some frame) = some (frame ++ 10 ∷ [])

unfoldable pub trusted : Option ℕ → ℕ → Bool
trusted none uid = false
trusted (some peer) uid = peer == uid

module _ {V Req Resp : Type 0} (codec : ServerCodec V Req Resp) where
  -- `reader.take(max)` is all that is ever read.
  unfoldable pub read_frame : ℕ → Bytes → Option Bytes
  read_frame max bytes = codec.next_line (max - 1) (take max bytes)

module _ {V St Req Resp Err : Type 0} (failure : Failure V Err) (handler : Handler St Req Resp Err)
    (codec : ServerCodec V Req Resp) where
  unfoldable pub unsupported_version : Version → Version → Fault V
  unfolding decimal
  unsupported_version version sent = record {
    code = ascii "unsupported_version";
    message =
        ascii "this server speaks major version "
        ++ decimal version.major
        ++ ascii ", not "
        ++ decimal sent.major;
    retryable = false;
    details = some (codec.majors sent.major version.major);
  }

  abbrev pub invalid_request : Fault V
  invalid_request = record {
    code = ascii "invalid_request";
    message = ascii "the request body is not one this server answers";
    retryable = false;
    details = none;
  }

  unfoldable pub answer : Result Err Resp → Outcome V Resp
  answer (ok response) = done response
  answer (err error) = fault (record {
    code = failure.code error;
    message = failure.to_string error;
    retryable = failure.retryable error;
    details = failure.details error;
  })

  unfoldable pub handled : Option Req → St → Outcome V Resp × St
  unfolding answer
  handled none state = (fault invalid_request, state)
  handled (some request) state =
      let (r, state') = handler.handle request state in (answer r, state')

  unfoldable pub respond : Version → Version → V → St → Outcome V Resp × St
  unfolding unsupported_version handled
  respond version sent body state =
      if not (sent.major == version.major)
      then (fault (unsupported_version version sent), state)
      else handled (codec.from_value body) state

  unfoldable pub served : Version → Option (Request V) → St → Option Bytes × St
  unfolding respond encoded
  served version none state = (none, state)
  served version (some request) state =
      let (outcome, state') = respond version request.v request.body state in
      (encoded (codec.to_vec (record { v = version; id = request.id; outcome = outcome })), state')

  unfoldable pub serve_line : Version → Option Bytes → St → Option Bytes × St
  unfolding served
  serve_line version none state = (none, state)
  serve_line version (some line) state = served version (codec.from_str line) state

  -- The frame that is handed to the stream, if any, and the handler's state after the connection.
  unfoldable pub serve_as : Version → ConnectionLimits → ℕ → Accepted → St → Option Bytes × St
  unfolding trusted read_frame serve_line
  serve_as version limits uid stream state =
      if not (trusted stream.peer_uid uid)
      then (none, state)
      else if not stream.in_time
      then (none, state)
      else serve_line version (read_frame codec limits.max_frame_bytes stream.arrives) state
