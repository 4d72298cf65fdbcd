-- ===== src/Daemon/Client/Timing.antt =====
-- When the client of crates/unixd/src/client.rs writes and reads: the instants at which its two loops go
-- on, described by the attempts of the socket alone.
use unixd.Prelude.{
  ℕ, ◌≡◌, ◌≢◌, ◌<◌, refl, sym, ◌∙◌, ◌++◌, length, leb, Option, none, some, Bytes, nat_eq, ◌==◌, ltb,
  Result, ok, err, [], ◌∷◌, drop, arith, Bool-cases, inl, inr,
}
use unixd.Daemon.Client.{
  IoKind, not_found, connection_refused, would_block, timed_out, interrupted, other, ClientError,
  timeout, io_error, left, Outgoing, takes_all, write_attempt, Incoming, ends, read_attempt, timed,
  timed_write, after_write, write_frame, after_read, read_frame, newline_at, with_newline,
}

-- All bytes go out, in attempts that each start before the deadline.
pub data WritesBefore (deadline : ℕ) : Outgoing → Bytes → Type 0 where
  written : {socket : Outgoing} → WritesBefore deadline socket []
  at_once : {now : ℕ} {frame : Bytes} → now < deadline → WritesBefore deadline (takes_all now) frame
  interruption :
      {now : ℕ} {socket : Outgoing} {frame : Bytes}
      → now < deadline
      → WritesBefore deadline socket frame
      → WritesBefore deadline (write_attempt now (ok tt) (err interrupted) socket) frame
  in_part :
      {now n : ℕ} {socket : Outgoing} {frame : Bytes}
      → now < deadline
      → n ≢ 0
      → WritesBefore deadline socket (drop n frame)
      → WritesBefore deadline (write_attempt now (ok tt) (ok n) socket) frame

-- A newline is read, in attempts that each start before the deadline; the last of them has it.
pub data ReadsBefore (deadline : ℕ) : Incoming → Type 0 where
  at_last :
      {now : ℕ} {b : ℕ} {chunk : Bytes} {socket : Incoming} {offset : ℕ}
      → now < deadline
      → newline_at (b ∷ chunk) ≡ some offset
      → ReadsBefore deadline (read_attempt now (ok tt) (ok (b ∷ chunk)) socket)
  in_chunk :
      {now : ℕ} {b : ℕ} {chunk : Bytes} {socket : Incoming}
      → now < deadline
      → newline_at (b ∷ chunk) ≡ none
      → ReadsBefore deadline socket
      → ReadsBefore deadline (read_attempt now (ok tt) (ok (b ∷ chunk)) socket)
  interruption :
      {now : ℕ} {socket : Incoming}
      → now < deadline
      → ReadsBefore deadline socket
      → ReadsBefore deadline (read_attempt now (ok tt) (err interrupted) socket)

module _ {V : Type 0} (deadline : ℕ) where
  err-ne-ok :
      {A : Type 0} {e : ClientError V} {a : A}
      → ◌≡◌ {A = Result (ClientError V) A} (err e) (ok a)
      → ⊥
  err-ne-ok e = cc

  timed_early :
      {A : Type 0} (now : ℕ) (set : Result IoKind (Unit {0})) (next : Result (ClientError V) A)
      (a : A)
      → timed deadline now set next ≡ ok a
      → (now < deadline) × (set ≡ ok tt) × (next ≡ ok a)
  unfolding timed left
  timed_early now (ok u) next a e = elim (Bool-cases (ltb now deadline)) [
    | inl early ↦
        let whole : timed deadline now (ok u) next ≡ next = ground (arith, early) in
        (ground (arith, early), refl, sym whole ∙ e)
    | inr late ↦
        let whole : timed deadline now (ok u) next ≡ err timeout = ground (arith, late) in
        absurd (err-ne-ok (sym whole ∙ e))
  ]
  timed_early now (err kind) next a e = elim (Bool-cases (ltb now deadline)) [
    | inl early ↦
        let whole : timed deadline now (err kind) next ≡ err (io_error kind) =
          ground (arith, early) in
        absurd (err-ne-ok (sym whole ∙ e))
    | inr late ↦
        let whole : timed deadline now (err kind) next ≡ err timeout = ground (arith, late) in
        absurd (err-ne-ok (sym whole ∙ e))
  ]

  timed_write_early :
      (now : ℕ) (set : Result IoKind (Unit {0})) (next : Result (ClientError V) (Unit {0}) × Bytes)
      → (timed_write deadline now set next).0 ≡ ok tt
      → (now < deadline) × (set ≡ ok tt) × (next.0 ≡ ok tt)
  unfolding timed_write
  timed_write_early now set (r, sent) e =
      by_result (timed deadline {A = Unit {0}} now set (ok tt)) refl e
    where
      by_result :
          (o : Result (ClientError V) (Unit {0}))
          → timed deadline {A = Unit {0}} now set (ok tt) ≡ o
          → (elim o as (λ _. Result (ClientError V) (Unit {0}) × Bytes) [
            | ok _ ↦ (r, sent)
            | err x ↦ (err x, [])
          ]).0
            ≡ ok tt
          → (now < deadline) × (set ≡ ok tt) × (r ≡ ok tt)
      by_result (ok u) h e =
          let (early, was_set, _) = timed_early now set (ok tt) tt h in (early, was_set, e)
      by_result (err x) h e = absurd (err-ne-ok e)

  pub write_frame-WritesBefore :
      (socket : Outgoing) (frame : Bytes)
      → (write_frame {V = V} deadline socket frame).0 ≡ ok tt
      → WritesBefore deadline socket frame
  unfolding write_frame after_write
  write_frame-WritesBefore socket [] e = written
  write_frame-WritesBefore (takes_all now) (b ∷ rest) e =
      at_once (timed_write_early now (ok tt) (ok tt, b ∷ rest) e).0
  write_frame-WritesBefore (write_attempt now set (ok n) socket) (b ∷ rest) e =
      let (early, was_set, next) = timed_write_early now set _ e in
      let attempt = write_frame-WritesBefore socket (drop n (b ∷ rest)) in
      elim (Bool-cases (n == 0)) [
        | inl nothing ↦ absurd (err-ne-ok (rw nothing at next))
        | inr some_bytes ↦
            rw was_set
              (in_part early (ground (arith, some_bytes)) (attempt (rw some_bytes at next)))
      ]
  write_frame-WritesBefore (write_attempt now set (err interrupted) socket) (b ∷ rest) e =
      let (early, was_set, next) = timed_write_early now set _ e in
      rw was_set (interruption early (write_frame-WritesBefore socket (b ∷ rest) next))
  write_frame-WritesBefore (write_attempt now set (err not_found) socket) (b ∷ rest) e =
      absurd (err-ne-ok (timed_write_early now set _ e).2)
  write_frame-WritesBefore (write_attempt now set (err connection_refused) socket) (b ∷ rest) e =
      absurd (err-ne-ok (timed_write_early now set _ e).2)
  write_frame-WritesBefore (write_attempt now set (err would_block) socket) (b ∷ rest) e =
      absurd (err-ne-ok (timed_write_early now set _ e).2)
  write_frame-WritesBefore (write_attempt now set (err timed_out) socket) (b ∷ rest) e =
      absurd (err-ne-ok (timed_write_early now set _ e).2)
  write_frame-WritesBefore (write_attempt now set (err (other k)) socket) (b ∷ rest) e =
      absurd (err-ne-ok (timed_write_early now set _ e).2)

  pub read_frame-ReadsBefore :
      (max : ℕ) (frame : Bytes) (socket : Incoming) (line : Bytes)
      → read_frame {V = V} deadline max frame socket ≡ ok line
      → ReadsBefore deadline socket
  unfolding read_frame after_read with_newline
  read_frame-ReadsBefore max frame (ends now) line e =
      absurd (err-ne-ok (timed_early now (ok tt) _ line e).2)
  read_frame-ReadsBefore max frame (read_attempt now set (ok []) socket) line e =
      absurd (err-ne-ok (timed_early now set _ line e).2)
  read_frame-ReadsBefore max frame (read_attempt now set (ok (b ∷ chunk)) socket) line e =
      let (early, was_set, next) = timed_early now set _ line e in
      rw was_set (
        by_newline early (newline_at (b ∷ chunk)) refl next
          (read_frame-ReadsBefore max (frame ++ b ∷ chunk) socket line))
    where
      by_newline :
          now < deadline
          → (o : Option ℕ) → newline_at (b ∷ chunk) ≡ o
          → with_newline deadline max
              (frame ++ b ∷ chunk)
              (length frame)
              o
              (read_frame {V = V} deadline max (frame ++ b ∷ chunk) socket)
            ≡ ok line
          → (read_frame {V = V} deadline max (frame ++ b ∷ chunk) socket ≡ ok line
              → ReadsBefore deadline socket)
          → ReadsBefore deadline (read_attempt now (ok tt) (ok (b ∷ chunk)) socket)
      by_newline early (some offset) there next again = at_last early there
      by_newline early none absent next again =
          elim (Bool-cases (leb max (length (frame ++ b ∷ chunk)))) [
            | inl large ↦ absurd (err-ne-ok (rw large at next))
            | inr small ↦ in_chunk early absent (again (rw small at next))
          ]
  read_frame-ReadsBefore max frame (read_attempt now set (err interrupted) socket) line e =
      let (early, was_set, next) = timed_early now set _ line e in
      rw was_set (interruption early (read_frame-ReadsBefore max frame socket line next))
  read_frame-ReadsBefore max frame (read_attempt now set (err not_found) socket) line e =
      absurd (err-ne-ok (timed_early now set _ line e).2)
  read_frame-ReadsBefore max frame (read_attempt now set (err connection_refused) socket) line e =
      absurd (err-ne-ok (timed_early now set _ line e).2)
  read_frame-ReadsBefore max frame (read_attempt now set (err would_block) socket) line e =
      absurd (err-ne-ok (timed_early now set _ line e).2)
  read_frame-ReadsBefore max frame (read_attempt now set (err timed_out) socket) line e =
      absurd (err-ne-ok (timed_early now set _ line e).2)
  read_frame-ReadsBefore max frame (read_attempt now set (err (other k)) socket) line e =
      absurd (err-ne-ok (timed_early now set _ line e).2)
