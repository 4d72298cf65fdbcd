-- ===== src/Daemon/Client/Frames.antt =====
-- The frames of crates/unixd/src/client.rs, however the socket cuts them.
use mathlib.Core.List.{append_assoc, append-nil}
use unixd.Prelude.{
  ℕ, suc, ◌+◌, ◌≡◌, ◌<◌, ◌⊎◌, inl, inr, refl, sym, ap, ◌∙◌, true, false, none, some, Bytes, nat_eq,
  ◌==◌, if◌then◌else◌, leb, Result, ok, err, [], ◌∷◌, ◌++◌, take, drop, length, arith, Bool-cases,
  Option-cases, length-append, take-append-drop, take-length,
}
use unixd.Daemon.Client.{
  interrupted, ClientError, closed, frame_too_large, invalid_frame, left, Outgoing, takes_all,
  write_attempt, Incoming, ends, read_attempt, timed, after_write, timed_write, write_frame,
  newline_at, at_end, with_newline, after_read, read_frame,
}
use unixd.Daemon.Client.Newlines.{
  newline_at-append_some, newline_at-append_none, shift, still_none, newline_at-length, take-append,
}

module _ (deadline : ℕ) where
  -- The socket gives `bytes` and then ends, before the deadline, in any chunks and with any number of
  -- interrupted reads.
  pub data Gives : Incoming → Bytes → Type 0 where
    at_last : {now : ℕ} → now < deadline → Gives (ends now) []
    interruption :
        {now : ℕ} {u : Unit {0}} {socket : Incoming} {bytes : Bytes}
        → now < deadline
        → Gives socket bytes
        → Gives (read_attempt now (ok u) (err interrupted) socket) bytes
    in_chunk :
        {now : ℕ} {u : Unit {0}} {socket : Incoming} {bytes : Bytes} {b : ℕ} {more : Bytes}
        → now < deadline
        → Gives socket bytes
        → Gives (read_attempt now (ok u) (ok (b ∷ more)) socket) ((b ∷ more) ++ bytes)

  -- The socket takes a frame before the deadline, in any pieces and with any number of interrupted writes.
  pub data Takes : Outgoing → Type 0 where
    at_once : {now : ℕ} → now < deadline → Takes (takes_all now)
    once_more :
        {now : ℕ} {u : Unit {0}} {socket : Outgoing}
        → now < deadline
        → Takes socket
        → Takes (write_attempt now (ok u) (err interrupted) socket)
    in_piece :
        {now : ℕ} {u : Unit {0}} {socket : Outgoing} {n : ℕ}
        → now < deadline
        → Takes socket
        → Takes (write_attempt now (ok u) (ok (suc n)) socket)

module _ {V : Type 0} (deadline : ℕ) where
  timed_ok :
      {A : Type 0} (now : ℕ) (u : Unit {0}) (next : Result (ClientError V) A)
      → now < deadline
      → timed deadline now (ok u) next ≡ next
  unfolding timed left
  timed_ok now u next h = ground (arith, h)

  timed_write_ok :
      (now : ℕ) (u : Unit {0}) (next : Result (ClientError V) (Unit {0}) × Bytes)
      → now < deadline
      → timed_write deadline now (ok u) next ≡ next
  unfolding timed_write
  timed_write_ok now u (r, sent) h = rw (timed_ok {A = Unit {0}} now u (ok tt) h, timed_write) refl

  after_write_some :
      (rest : Bytes) (n : ℕ) (again : Bytes → Result (ClientError V) (Unit {0}) × Bytes)
      → after_write deadline rest (ok (suc n)) again
        ≡ ((again (drop (suc n) rest)).0, take (suc n) rest ++ (again (drop (suc n) rest)).1)
  unfolding after_write
  after_write_some rest n again =
      let some_taken : (suc n == 0) ≡ false = ground arith in rw some_taken refl

  -- A frame that the socket takes goes out whole and in order.
  pub write_frame_lem :
      (socket : Outgoing) (frame : Bytes)
      → Takes deadline socket
      → write_frame {V = V} deadline socket frame ≡ (ok tt, frame)
  unfolding write_frame after_write
  write_frame_lem socket [] t = refl
  write_frame_lem _ (b ∷ rest) (at_once h) = timed_write_ok _ tt _ h
  write_frame_lem _ (b ∷ rest) (once_more h t) =
      timed_write_ok _ _ _ h ∙ write_frame_lem _ (b ∷ rest) t
  write_frame_lem _ (b ∷ rest) (in_piece {socket = socket} {n = n} h t) =
      timed_write_ok _ _ _ h
      ∙ after_write_some (b ∷ rest) n (write_frame deadline socket)
      ∙ ap
          (λ (p : Result (ClientError V) (Unit {0}) × Bytes). (p.0, take (suc n) (b ∷ rest) ++ p.1))
          (write_frame_lem _ (drop (suc n) (b ∷ rest)) t)
      ∙ ap (λ s. (ok tt, s)) (take-append-drop (suc n) (b ∷ rest))

  module _ (max : ℕ) where
    unfoldable pub unended : Bytes → ClientError V
    unended [] = closed
    unended (b ∷ bytes) = if leb max (suc (length bytes)) then frame_too_large else invalid_frame

    -- What one look at all the bytes of a connection says of its frame.
    unfoldable pub first_frame : Bytes → Result (ClientError V) Bytes
    unfolding unended
    first_frame bytes = elim (newline_at bytes) [
      | some n ↦ if leb max n then err frame_too_large else ok (take n bytes)
      | none ↦ err (unended bytes)
    ]

    -- Past the cap with no newline, what follows does not matter.
    too_long :
        (frame bytes : Bytes)
        → newline_at frame ≡ none
        → leb max (length frame) ≡ true
        → (0 < length frame)
        → first_frame (frame ++ bytes) ≡ err frame_too_large
    unfolding first_frame unended
    too_long [] bytes none_yet long filled = absurd (omega (arith, filled))
    too_long (b ∷ frame) bytes none_yet long filled =
        let at = newline_at-append_none (b ∷ frame) bytes none_yet in
        elim (Option-cases (newline_at bytes)) [
          | inl none_after ↦
              let e : newline_at (b ∷ frame ++ bytes) ≡ none =
                at ∙ ap (shift (length (b ∷ frame))) none_after in
              rw (e, longer_all, first_frame, unended) refl
          | inr (m, found) ↦
              let e : newline_at (b ∷ frame ++ bytes) ≡ some (length (b ∷ frame) + m) =
                at ∙ ap (shift (length (b ∷ frame))) found in
              rw (e, longer m, first_frame) refl
        ]
      where
        longer : (m : ℕ) → leb max (length (b ∷ frame) + m) ≡ true
        longer m = ground (arith, long)

        longer_all : leb max (suc (length (frame ++ bytes))) ≡ true
        longer_all = ground (arith, long, length-append frame bytes)

    found_early :
        (frame chunk bytes : Bytes) (n : ℕ)
        → newline_at frame ≡ none
        → newline_at chunk ≡ some n
        → first_frame (frame ++ (chunk ++ bytes)) ≡ (
            if leb max (length frame + n)
            then err frame_too_large
            else ok (take (length frame + n) (frame ++ chunk)))
    unfolding first_frame
    found_early frame chunk bytes n none_yet at =
        let e : newline_at (frame ++ (chunk ++ bytes)) ≡ some (length frame + n) =
          newline_at-append_none frame (chunk ++ bytes) none_yet
          ∙ ap (shift (length frame)) (newline_at-append_some chunk bytes n at) in
        let inside = newline_at-length chunk n at in
        let t : take (length frame + n) (frame ++ (chunk ++ bytes))
            ≡ take (length frame + n) (frame ++ chunk) =
          ap (take (length frame + n)) (sym (append_assoc frame chunk bytes))
          ∙ take-append (length frame + n) (frame ++ chunk) bytes
              (omega (arith, inside, length-append frame chunk)) in
        rw (e, t, first_frame) refl

    at_the_end :
        (g : Bytes)
        → newline_at g ≡ none
        → (g ≡ []) ⊎ (length g < max)
        → ◌≡◌ {A = Result (ClientError V) Bytes} (err (at_end deadline max g)) (first_frame g)
    unfolding at_end first_frame unended newline_at
    at_the_end [] e short = refl
    at_the_end (b ∷ g) e (inl filled) = cc
    at_the_end (b ∷ g) e (inr short) =
        let within : leb max (suc (length g)) ≡ false = ground (arith, short) in
        rw (e, within, first_frame, unended) refl

    with_chunk :
        (frame chunk : Bytes) (next : Result (ClientError V) Bytes) (bytes : Bytes)
        → newline_at frame ≡ none
        → (0 < length (frame ++ chunk))
        → (newline_at (frame ++ chunk) ≡ none
            → (frame ++ chunk ≡ []) ⊎ (length (frame ++ chunk) < max)
            → next ≡ first_frame ((frame ++ chunk) ++ bytes))
        → with_newline deadline max (frame ++ chunk) (length frame) (newline_at chunk) next
          ≡ first_frame (frame ++ (chunk ++ bytes))
    unfolding with_newline
    with_chunk frame chunk next bytes f filled loop = elim (Option-cases (newline_at chunk)) [
      | inr (n, at) ↦ rw at (sym (found_early frame chunk bytes n f at))
      | inl without ↦
          let none_yet = still_none frame chunk f without in
          let assoc = append_assoc frame chunk bytes in
          rw without (elim (Bool-cases (leb max (length (frame ++ chunk)))) [
            | inl long ↦
                rw long (
                  sym (too_long (frame ++ chunk) bytes none_yet long filled) ∙ ap first_frame assoc)
            | inr short ↦
                rw short (loop none_yet (inr (ground (arith, short))) ∙ ap first_frame assoc)
          ])
    ]

    from_frame :
        (frame : Bytes) (socket : Incoming) (bytes : Bytes)
        → newline_at frame ≡ none
        → (frame ≡ []) ⊎ (length frame < max)
        → Gives deadline socket bytes
        → read_frame deadline max frame socket ≡ first_frame (frame ++ bytes)
    unfolding read_frame after_read
    from_frame frame _ _ f short (at_last {now = now} h) =
        timed_ok now tt _ h ∙ at_the_end frame f short ∙ ap first_frame (sym (append-nil frame))
    from_frame frame _ bytes f short (interruption {now = now} {u = u} h g) =
        timed_ok now u _ h ∙ from_frame frame _ bytes f short g
    from_frame frame _ _ f short
          (in_chunk {now = now} {u = u} {bytes = bytes} {b = b} {more = more} h g) =
        timed_ok now u _ h
        ∙ with_chunk frame (b ∷ more) _ bytes f (ground (arith, length-append frame (b ∷ more)))
            (λ f' short'. from_frame (frame ++ b ∷ more) _ bytes f' short' g)

    -- A client's reading of a frame depends on the bytes alone: in whatever chunks they come before
    -- the deadline, and however often a read is interrupted, the result is that of one look at them all.
    pub read_frame-first_frame :
        (socket : Incoming) (bytes : Bytes)
        → Gives deadline socket bytes
        → read_frame deadline max [] socket ≡ first_frame bytes
    unfolding newline_at
    read_frame-first_frame socket bytes g = from_frame [] socket bytes refl (inl refl) g

    -- A line with its newline is the frame.
    pub first_frame_line :
        (line : Bytes)
        → newline_at line ≡ none
        → length line < max
        → first_frame (line ++ 10 ∷ []) ≡ ok line
    unfolding first_frame newline_at
    first_frame_line line e fits =
        let at : newline_at (line ++ 10 ∷ []) ≡ some (length line) =
          newline_at-append_none line (10 ∷ []) e ∙ ap some (omega arith) in
        let within : leb max (length line) ≡ false = ground (arith, fits) in
        let whole : take (length line) (line ++ 10 ∷ []) ≡ line =
          take-append (length line) line (10 ∷ []) (omega arith)
          ∙ take-length (length line) line (omega arith) in
        rw (at, first_frame, within) (ap ok whole)
