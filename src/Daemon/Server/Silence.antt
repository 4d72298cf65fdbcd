-- ===== src/Daemon/Server/Silence.antt =====
-- Whom the server of crates/unixd/src/server.rs answers.
use unixd.Prelude.{
  ℕ, ◌≡◌, ◌⊎◌, refl, true, Option, none, some, Bytes, nat_eq, ==_iff, arith, Bool-cases,
  Option-cases, inl, inr,
}
use unixd.Daemon.Envelope.{Version, Request, fault, Fault, ConnectionLimits}
use unixd.Daemon.Server.{
  Failure, Handler, ServerCodec, Accepted, encoded, served, serve_line, serve_as, read_frame,
  trusted,
}

module _ {V St Req Resp Err : Type 0} (failure : Failure V Err) (handler : Handler St Req Resp Err)
    (codec : ServerCodec V Req Resp) (version : Version) (limits : ConnectionLimits) (uid : ℕ) where
  trusted_own : (peer : Option ℕ) → trusted peer uid ≡ true → peer ≡ some uid
  unfolding trusted
  trusted_own none e = cc
  trusted_own (some peer) e = ground (arith, ==_iff peer uid)

  -- The connection is the server's own user's, in time, and its first line decodes to `request`.
  pub record Sends (stream : Accepted) (request : Request V) : Type 0 where
    pub own : stream.peer_uid ≡ some uid
    pub in_time : stream.in_time ≡ true
    pub line : Bytes
    pub read : read_frame codec limits.max_frame_bytes stream.arrives ≡ some line
    pub decoded : codec.from_str line ≡ some request

  by_line :
      (line : Option Bytes) (state : St)
      → (serve_line failure handler codec version line state ≡ (none, state))
        ⊎ ((l : Bytes) × (request : Request V) × (line ≡ some l)
            × (codec.from_str l ≡ some request))
  unfolding serve_line served
  by_line none state = inl refl
  by_line (some line) state = elim (Option-cases (codec.from_str line)) [
    | inl undecoded ↦ inl (rw undecoded refl)
    | inr (request, e) ↦ inr (line, request, refl, e)
  ]

  -- A connection is answered, and the handler's state changed, only for a peer that runs as the
  -- server's own user and whose first line, read whole in time and within the cap, is a request
  -- envelope; every other connection gets no byte and leaves the handler's state as it was.
  pub serve_as-Sends :
      (stream : Accepted) (state : St)
      → (serve_as failure handler codec version limits uid stream state ≡ (none, state))
        ⊎ ((request : Request V) × Sends stream request)
  unfolding serve_as
  serve_as-Sends stream state = elim (Bool-cases (trusted stream.peer_uid uid)) [
    | inr stranger ↦ inl (rw stranger refl)
    | inl own ↦ elim (Bool-cases stream.in_time) [
      | inr late ↦ inl (rw (own, late) refl)
      | inl timely ↦ elim (by_line (read_frame codec limits.max_frame_bytes stream.arrives) state) [
        | inl silent ↦ inl (rw (own, timely) silent)
        | inr (line, request, read, decoded) ↦ inr (
          request,
          record {
            own = trusted_own stream.peer_uid own;
            in_time = timely;
            line = line;
            read = read;
            decoded = decoded;
          },
        )
      ]
    ]
  ]

  -- The server's reply with a fault of the transport, and the handler's state as it was.
  abbrev pub refusal : Request V → Fault V → St → Option Bytes × St
  refusal request f state =
      (encoded (codec.to_vec (record { v = version; id = request.id; outcome = fault f })), state)
