-- ===== src/Daemon/Client/Trust.antt =====
-- What the client of crates/unixd/src/client.rs takes for the answer to its call.
use unixd.Prelude.{
  ℕ, ◌+◌, ◌-◌, ◌≡◌, ◌<◌, refl, sym, ap, ◌∙◌, Bool, true, not, Option, none, some, Bytes, list_eq,
  nat_eq, ◌==◌, ==_iff, if◌then◌else◌, ltb, Result, ok, err, Duration, [], ◌∷◌, ◌++◌, length,
  length-append, arith, Bool-cases, inl, inr,
}
use unixd.Daemon.Envelope.{Version, Response, Outcome, done, fault}
use unixd.Daemon.Client.{
  IoKind, ClientError, io_error, connect_error, left, Client, Connection, ClientCodec,
  trusted_listener, ◌then◌, as_client, judge, exchange, connected, with_frame, call, read_frame,
  write_frame, peer_mismatch,
}
use unixd.Daemon.Client.Timing.{
  WritesBefore, ReadsBefore, write_frame-WritesBefore, read_frame-ReadsBefore,
}

module _ {V : Type 0} where
  then_ok :
      {A C : Type 0} (r : Result (ClientError V) A) (f : A → Result (ClientError V) C) (c : C)
      → (r then f) ≡ ok c
      → (a : A) × (r ≡ ok a) × (f a ≡ ok c)
  then_ok (ok a) f c e = (a, refl, e)
  then_ok (err x) f c e = cc

  as_client_ok :
      {A : Type 0} (f : IoKind → ClientError V) (r : Result IoKind A) (a : A)
      → as_client f r ≡ ok a
      → r ≡ ok a
  unfolding as_client
  as_client_ok f (ok b) a e = cc
  as_client_ok f (err k) a e = cc

  left_ok :
      (deadline now : ℕ) (wait : Duration)
      → left {V = V} deadline now ≡ ok wait
      → (now < deadline) × (wait ≡ deadline - now)
  unfolding left
  left_ok deadline now wait e = ground arith

module _ {V B R : Type 0} (codec : ClientCodec V B R) (client : Client) (macos : Bool)
    (own_uid : ℕ) where
  -- The response `r` came from a listener that the client trusts, in an envelope for this very request.
  pub record Answers (start now : ℕ) (id : Bytes) (connect : Duration → Result IoKind Connection)
      (body : B) (r : R) : Type 0 where
    pub line : Bytes
    pub encodes : codec.to_vec (record { v = client.version; id = id; body = body }) ≡ some line
    pub fits : length line < client.limits.max_frame_bytes
    pub early : now < start + client.deadline
    pub stream : Connection
    pub connects : connect ((start + client.deadline) - now) ≡ ok stream
    pub uid : ℕ
    pub peer : stream.peer_uid ≡ ok uid
    pub trusted : trusted_listener macos own_uid uid ≡ true
    pub written :
        (write_frame {V = V} (start + client.deadline) stream.outgoing (line ++ 10 ∷ [])).0 ≡ ok tt
    pub written_in_time : WritesBefore (start + client.deadline) stream.outgoing (line ++ 10 ∷ [])
    pub reply : Bytes
    pub reads :
        read_frame {V = V} (start + client.deadline) client.limits.max_frame_bytes [] (
          stream.incoming
            (write_frame {V = V} (start + client.deadline) stream.outgoing (line ++ 10 ∷ [])).1)
        ≡ ok reply
    pub read_in_time : ReadsBefore (start + client.deadline) (
        stream.incoming
          (write_frame {V = V} (start + client.deadline) stream.outgoing (line ++ 10 ∷ [])).1)
    pub response : Response V R
    pub decodes : codec.from_slice reply ≡ some response
    pub same_id : response.id ≡ id
    pub same_major : response.v.major ≡ client.version.major
    pub succeeded : response.outcome ≡ done r

  err_ok : {e : ClientError V} {r : R} → ◌≡◌ {A = Result (ClientError V) R} (err e) (ok r) → ⊥
  err_ok e = cc

  judge_outcome :
      (id : Bytes) (v : Version) (reply_id : Bytes) (o : Outcome V R) (r : R)
      → judge codec client macos own_uid id (some (record { v = v; id = reply_id; outcome = o }))
        ≡ ok r
      → (reply_id ≡ id) × (v.major ≡ client.version.major) × (o ≡ done r)
  unfolding judge
  judge_outcome id v reply_id (done answer) r e = elim (Bool-cases (reply_id == id)) [
    | inr other_id ↦ absurd (err_ok (rw other_id at e))
    | inl own ↦ elim (Bool-cases (v.major == client.version.major)) [
      | inr other_major ↦ absurd (err_ok (rw (own, other_major) at e))
      | inl same ↦ (
        (==_iff reply_id id).0 own,
        (==_iff v.major client.version.major).0 same,
        cc (rw (own, same) at e),
      )
    ]
  ]
  judge_outcome id v reply_id (fault f) r e = elim (Bool-cases (reply_id == id)) [
    | inr other_id ↦ absurd (err_ok (rw other_id at e))
    | inl own ↦ absurd (err_ok (rw own at e))
  ]

  judge_ok :
      (id : Bytes) (o : Option (Response V R)) (r : R)
      → judge codec client macos own_uid id o ≡ ok r
      → (response : Response V R) × (o ≡ some response)
        × (response.id ≡ id)
        × (response.v.major ≡ client.version.major)
        × (response.outcome ≡ done r)
  unfolding judge
  judge_ok id none r e = absurd (err_ok e)
  judge_ok id (some response) r e =
      let (own, major, outcome) = judge_outcome id response.v response.id response.outcome r e in
      (response, refl, own, major, outcome)

  exchange_ok :
      (deadline : ℕ) (id frame : Bytes) (stream : Connection) (r : R)
      → exchange codec client macos own_uid deadline id frame stream ≡ ok r
      → ((write_frame {V = V} deadline stream.outgoing frame).0 ≡ ok tt)
        × ((reply : Bytes) × (read_frame {V = V} deadline client.limits.max_frame_bytes []
                (stream.incoming (write_frame {V = V} deadline stream.outgoing frame).1)
              ≡ ok reply)
            × (judge codec client macos own_uid id (codec.from_slice reply) ≡ ok r))
  unfolding exchange
  exchange_ok deadline id frame stream r e =
      let (reply, before, judged) =
        then_ok _ (λ line. judge codec client macos own_uid id (codec.from_slice line)) r e in
      let (_, shut, read) =
        then_ok _
          (λ _.
            read_frame {V = V} deadline client.limits.max_frame_bytes []
              (stream.incoming (write_frame {V = V} deadline stream.outgoing frame).1))
          reply before in
      let (_, written, _) =
        then_ok (write_frame {V = V} deadline stream.outgoing frame).0
          (λ _. as_client io_error stream.shutdown) _ shut in
      (written, (reply, read, judged))

  connected_ok :
      (deadline : ℕ) (id frame : Bytes) (stream : Connection) (r : R)
      → connected codec client macos own_uid deadline id frame stream ≡ ok r
      → (uid : ℕ) × (stream.peer_uid ≡ ok uid)
        × (trusted_listener macos own_uid uid ≡ true)
        × (exchange codec client macos own_uid deadline id frame stream ≡ ok r)
  unfolding connected
  connected_ok deadline id frame stream r e =
      let (uid, hu, spoken) =
        then_ok (as_client io_error stream.peer_uid)
          (λ uid.
            if not (trusted_listener macos own_uid uid)
            then err peer_mismatch
            else exchange codec client macos own_uid deadline id frame stream)
          r e in
      elim (Bool-cases (trusted_listener macos own_uid uid)) [
        | inr stranger ↦ absurd (err_ok (rw stranger at spoken))
        | inl own ↦ (uid, as_client_ok io_error stream.peer_uid uid hu, own, rw own at spoken)
      ]

  from_line :
      (start now : ℕ) (id line : Bytes) (connect : Duration → Result IoKind Connection) (body : B)
      (r : R)
      → codec.to_vec (record { v = client.version; id = id; body = body }) ≡ some line
      → length line < client.limits.max_frame_bytes
      → ((left (start + client.deadline) now then (λ wait. as_client connect_error (connect wait)))
          then (λ stream.
              connected codec client macos own_uid
                (start + client.deadline)
                id
                (line ++ 10 ∷ [])
                stream))
        ≡ ok r
      → Answers start now id connect body r
  from_line start now id line connect body r h fits e =
      let (stream, hs, rest) =
        then_ok _
          (λ stream.
            connected codec client macos own_uid (start + client.deadline) id (line ++ 10 ∷ [])
              stream)
          r e in
      let (wait, hw, opened) =
        then_ok (left (start + client.deadline) now)
          (λ wait. as_client connect_error (connect wait)) stream hs in
      let (early, exact) = left_ok (start + client.deadline) now wait hw in
      let (uid, peer, own, spoken) =
        connected_ok (start + client.deadline) id (line ++ 10 ∷ []) stream r rest in
      let (written, (reply, read, judged)) =
        exchange_ok (start + client.deadline) id (line ++ 10 ∷ []) stream r spoken in
      let (response, decoded, same_id, same_major, outcome) =
        judge_ok id (codec.from_slice reply) r judged in
      record {
        line = line;
        encodes = h;
        fits = fits;
        early = early;
        stream = stream;
        connects = ap connect (sym exact) ∙ as_client_ok connect_error (connect wait) stream opened;
        uid = uid;
        peer = peer;
        trusted = own;
        written = written;
        written_in_time =
            write_frame-WritesBefore (start + client.deadline) stream.outgoing (line ++ 10 ∷ [])
              written;
        reply = reply;
        reads = read;
        read_in_time =
            read_frame-ReadsBefore (start + client.deadline) client.limits.max_frame_bytes [] _
              reply read;
        response = response;
        decodes = decoded;
        same_id = same_id;
        same_major = same_major;
        succeeded = outcome;
      }

  from_frame :
      (start now : ℕ) (id : Bytes) (connect : Duration → Result IoKind Connection) (body : B)
      (r : R) (o : Option Bytes)
      → codec.to_vec (record { v = client.version; id = id; body = body }) ≡ o
      → with_frame codec client macos own_uid (start + client.deadline) now id connect o ≡ ok r
      → Answers start now id connect body r
  unfolding with_frame
  from_frame start now id connect body r none h e = absurd (err_ok e)
  from_frame start now id connect body r (some line) h e =
      elim (Bool-cases (ltb client.limits.max_frame_bytes (length (line ++ 10 ∷ [])))) [
        | inl large ↦ absurd (err_ok (rw large at e))
        | inr small ↦
            from_line start now id line connect body r h
              (ground (arith, small, length-append line (10 ∷ []))) (rw small at e)
      ]

  -- A call returns a response only if it began before its deadline to connect to a listener that runs as
  -- the caller's own user (or as root, on macOS), wrote a request within the cap without an error, and
  -- read a frame that decodes to an envelope with the request's own id, the client's major version and
  -- that response; where every attempt to write the request and to read the frame began before the
  -- deadline too, the last of these being the one that brought the newline.
  pub call-Answers :
      (start now : ℕ) (id : Bytes) (connect : Duration → Result IoKind Connection) (body : B)
      (r : R)
      → call codec client macos own_uid start now id connect body ≡ ok r
      → Answers start now id connect body r
  unfolding call
  call-Answers start now id connect body r e =
      from_frame start now id connect body r
        (codec.to_vec (record { v = client.version; id = id; body = body })) refl e
