-- ===== src/Daemon/Exchange.antt =====
-- A call of crates/unixd/src/client.rs on a connection that crates/unixd/src/server.rs serves.
use unixd.Prelude.{
  ℕ, ◌+◌, ◌-◌, ◌≡◌, ◌≢◌, ◌≤◌, ◌<◌, refl, ap, ◌∙◌, Bool, true, false, Option, none, some, Bytes,
  list_eq, nat_eq, ◌==◌, ==_refl, ltb, Result, ok, err, [], ◌∷◌, ◌++◌, take, length, arith,
  if◌then◌else◌, Bool-cases, inl, inr, length-append, take-length, Duration,
}
use unixd.Daemon.Envelope.{
  Version, Request, Response, Outcome, done, fault, Fault, ConnectionLimits,
}
use unixd.Daemon.Server.{
  Failure, Handler, ServerCodec, Accepted, respond, handled, encoded, serve_line, served, serve_as,
  trusted,
}
use unixd.Daemon.Server
use unixd.Daemon.Client.{
  IoKind, ClientError, remote, ClientCodec, Client, Connection, left, newline_at, read_frame, judge,
  exchange, connected, with_frame, call, trusted_listener,
}
use unixd.Daemon.Client.Frames.{
  Gives, Takes, write_frame_lem, read_frame-first_frame, first_frame_line,
}

-- An outcome as it is read back: details that are JSON's null are read as none.
abbrev pub details_seen : {V : Type 0} → (V → Bool) → Option V → Option V
details_seen is_null none = none
details_seen is_null (some v) = if is_null v then none else some v

abbrev pub seen : {V Resp : Type 0} → (V → Bool) → Outcome V Resp → Outcome V Resp
seen is_null (done r) = done r
seen is_null (fault f) = fault (record f { details = details_seen is_null f.details })

-- What serde_json and the line codec do with what the other side encoded: a request comes back with
-- its body as a value, a response as it was but for details that are null, an encoding has no raw newline, and the codec gives a
-- line that the encoder made, up to its newline and within its cap.
pub record CodecLaws {V B Req Resp : Type 0} (client : ClientCodec V B Resp)
    (server : ServerCodec V Req Resp) : Type 0 where
  pub to_value : B → V
  pub request_back :
      (request : Request B) (line : Bytes)
      → client.to_vec request ≡ some line
      → server.from_str line
        ≡ some (record { v = request.v; id = request.id; body = to_value request.body })
  pub line_back :
      (request : Request B) (line : Bytes) (max : ℕ)
      → client.to_vec request ≡ some line
      → length line ≤ max
      → server.next_line max (line ++ 10 ∷ []) ≡ some line
  pub is_null : V → Bool
  pub response_back :
      (response : Response V Resp) (line : Bytes)
      → server.to_vec response ≡ some line
      → client.from_slice line ≡ some (record response { outcome = seen is_null response.outcome })
  pub response_line :
      (response : Response V Resp) (line : Bytes)
      → server.to_vec response ≡ some line
      → newline_at line ≡ none

-- The outcome as the caller sees it.
unfoldable pub as_result : {V R : Type 0} → Outcome V R → Result (ClientError V) R
as_result (done r) = ok r
as_result (fault f) = err (remote f)

module _ {V St B Req Resp Err : Type 0} (failure : Failure V Err)
    (handler : Handler St Req Resp Err) (server : ServerCodec V Req Resp)
    (codec : ClientCodec V B Resp) (laws : CodecLaws codec server) (version : Version)
    (limits : ConnectionLimits) (uid : ℕ) (client : Client) (macos : Bool) (state : St) (body : B)
    (id : Bytes) where
  abbrev pub request : Request B
  request = record { v = client.version; id = id; body = body }

  -- What the server does with the request's envelope.
  abbrev pub responded : Outcome V Resp × St
  responded = respond failure handler server version client.version (laws.to_value body) state

  abbrev pub reply : Response V Resp
  reply = record { v = version; id = id; outcome = responded.0 }

  -- The server's outcome as the client reads it.
  abbrev pub received_outcome : Outcome V Resp
  received_outcome = seen laws.is_null responded.0

  -- One connection: the request fits both caps and the reply the client's, the listener runs as the
  -- caller's user, the socket takes the request, and gives back what the server hands to it.
  pub record Connects (start now : ℕ) (connect : Duration → Result IoKind Connection) : Type 0 where
    pub line : Bytes
    pub encodes : codec.to_vec request ≡ some line
    pub fits_client : length line < client.limits.max_frame_bytes
    pub fits_server : length line < limits.max_frame_bytes
    pub answer : Bytes
    pub answers : server.to_vec reply ≡ some answer
    pub answer_fits : length answer < client.limits.max_frame_bytes
    pub early : now < start + client.deadline
    pub stream : Connection
    pub connects : connect ((start + client.deadline) - now) ≡ ok stream
    pub own_listener : stream.peer_uid ≡ ok uid
    pub takes : Takes (start + client.deadline) stream.outgoing
    pub shuts : stream.shutdown ≡ ok tt
    pub gives :
        (frame : Bytes)
        → (serve_as failure handler server version limits uid
            (record { peer_uid = some uid; arrives = line ++ 10 ∷ []; in_time = true })
            state).0
          ≡ some frame
        → Gives (start + client.deadline) (stream.incoming (line ++ 10 ∷ [])) frame

  answered_done :
      (r : Resp) → (version.major == client.version.major) ≡ false → responded.0 ≢ done r
  unfolding respond
  answered_done r apart e = never (rw (other_major) at e)
    where
      other_major : (client.version.major == version.major) ≡ false
      other_major = ground (arith, apart)

      never : {f : Fault V} → ◌≡◌ {A = Outcome V Resp} (fault f) (done r) → ⊥
      never e = cc

  seen_done :
      (r : Resp) → (version.major == client.version.major) ≡ false → received_outcome ≢ done r
  seen_done r apart e = answered_done r apart (was responded.0 e)
    where
      was : (o : Outcome V Resp) → seen laws.is_null o ≡ done r → o ≡ done r
      was (done q) e = e
      was (fault f) e = absurd (never e)
        where
          never : {f : Fault V} → ◌≡◌ {A = Outcome V Resp} (fault f) (done r) → ⊥
          never e = cc

  judge_reply :
      (o : Outcome V Resp)
      → ((r : Resp) → (version.major == client.version.major) ≡ false → o ≢ done r)
      → judge codec client macos uid id (some (record { v = version; id = id; outcome = o }))
        ≡ as_result o
  unfolding judge as_result
  judge_reply (fault f) own = rw (==_refl id) refl
  judge_reply (done r) own = elim (Bool-cases (version.major == client.version.major)) [
    | inl same ↦ rw (==_refl id, same) refl
    | inr apart ↦ absurd (own r apart refl)
  ]

  module _ (start now : ℕ) (connect : Duration → Result IoKind Connection)
      (c : Connects start now connect) where
    read_line : Server.read_frame server limits.max_frame_bytes (c.line ++ 10 ∷ []) ≡ some c.line
    unfolding Server.read_frame
    read_line =
        let whole : take limits.max_frame_bytes (c.line ++ 10 ∷ []) ≡ c.line ++ 10 ∷ [] =
          take-length limits.max_frame_bytes (c.line ++ 10 ∷ [])
            (omega (arith, c.fits_server, length-append c.line (10 ∷ []))) in
        ap (server.next_line (limits.max_frame_bytes - 1)) whole
        ∙ laws.line_back request c.line (limits.max_frame_bytes - 1) c.encodes
            (omega (arith, c.fits_server))

    served_reply :
        serve_as failure handler server version limits uid
          (record { peer_uid = some uid; arrives = c.line ++ 10 ∷ []; in_time = true })
          state
        ≡ (some (c.answer ++ 10 ∷ []), responded.1)
    unfolding serve_as trusted serve_line served encoded
    served_reply =
        rw (==_refl uid, read_line, laws.request_back request c.line c.encodes, c.answers) refl

    judged :
        judge codec client macos uid id (codec.from_slice c.answer) ≡ as_result received_outcome
    judged =
        ap (judge codec client macos uid id) (laws.response_back reply c.answer c.answers)
        ∙ judge_reply received_outcome seen_done

    received :
        read_frame {V = V}
          (start + client.deadline)
          client.limits.max_frame_bytes
          []
          (c.stream.incoming (c.line ++ 10 ∷ []))
        ≡ ok c.answer
    received =
        read_frame-first_frame (start + client.deadline) client.limits.max_frame_bytes _ _
          (c.gives (c.answer ++ 10 ∷ []) (ap (λ (p : Option Bytes × St). p.0) served_reply))
        ∙ first_frame_line (start + client.deadline) client.limits.max_frame_bytes c.answer
            (laws.response_line reply c.answer c.answers) c.answer_fits

    exchanged :
        exchange codec client macos uid (start + client.deadline) id (c.line ++ 10 ∷ []) c.stream
        ≡ as_result received_outcome
    unfolding exchange
    exchanged =
        rw
          (
            write_frame_lem {V = V} (start + client.deadline) c.stream.outgoing (c.line ++ 10 ∷ [])
                c.takes,
            c.shuts,
            received,
          )
          judged

    -- The transport only moves a call: over a connection that holds, whatever the sizes of the pieces
    -- in which the two frames travel, the client's call returns the response that the server's
    -- handler gave to the body, or the fault that the server gave, as the error of the remote side (with
    -- no details where the server's are JSON's null).
    pub call-respond :
        call codec client macos uid start now id connect body ≡ as_result received_outcome
    unfolding call with_frame connected left trusted_listener
    call-respond = rw (c.encodes, small, in_time, c.connects, c.own_listener, ==_refl uid) exchanged
      where
        small : ltb client.limits.max_frame_bytes (length (c.line ++ 10 ∷ [])) ≡ false
        small = ground (arith, c.fits_client, length-append c.line (10 ∷ []))

        in_time : ltb now (start + client.deadline) ≡ true
        in_time = ground (arith, c.early)
