-- ===== src/Tests/DaemonProtocol.antt =====
-- A protocol for the daemon's runs: its bodies are numbers, each sent as one byte with 11 added.
use unixd.Prelude.{
  ℕ, ◌+◌, ◌-◌, ◌≡◌, ◌≤◌, refl, ap, ◌∙◌, subst, Bool, true, false, [], ◌∷◌, ◌++◌, Option, none, some,
  Bytes, nat_eq, list_eq, ◌==◌, if◌then◌else◌, leb, take, length, take-length, arith,
}
use unixd.Daemon.Envelope.{Version, Outcome, done, fault}
use unixd.Daemon.Server.{Failure, ServerCodec}
use unixd.Daemon.Client.{ClientCodec, newline_at}
use unixd.Daemon.Client.Newlines.{newline_at-append_none, take-append}
use unixd.Daemon.Exchange.{CodecLaws, seen}

abbrev pub raised : Bytes → Bytes
raised [] = []
raised (b ∷ bytes) = (b + 11) ∷ raised bytes

abbrev pub lowered : Bytes → Bytes
lowered [] = []
lowered (b ∷ bytes) = (b - 11) ∷ lowered bytes

pub lowered-raised : (bytes : Bytes) → lowered (raised bytes) ≡ bytes
lowered-raised [] = refl
lowered-raised (b ∷ bytes) =
    let rest = lowered-raised bytes in
    let first : (b + 11) - 11 ≡ b = omega arith in cc (rest, first)

pub raised_newline : (bytes : Bytes) → newline_at (raised bytes) ≡ none
unfolding newline_at
raised_newline [] = refl
raised_newline (b ∷ bytes) =
    let apart : ((b + 11) == 10) ≡ false = ground arith in rw (apart, raised_newline bytes) refl

abbrev pub line_of : Version → ℕ → Bytes → Bytes
line_of v body id = raised (v.major ∷ v.minor ∷ body ∷ id)

abbrev pub parsed : {A : Type 0} → (Version → Bytes → ℕ → A) → Bytes → Option A
parsed f (a ∷ b ∷ c ∷ id) = some (f (record { major = a; minor = b }) id c)
parsed f _ = none

abbrev pub test_client_codec : ClientCodec ℕ ℕ ℕ
test_client_codec = record {
  to_vec = λ r. some (line_of r.v r.body r.id);
  from_slice = λ l. parsed (λ v id n. record { v = v; id = id; outcome = done n }) (lowered l);
}

abbrev pub response_line_of : Version → Bytes → Outcome ℕ ℕ → Option Bytes
response_line_of v id (done n) = some (line_of v n id)
response_line_of v id (fault f) = none

abbrev pub cut_line : ℕ → Bytes → Option ℕ → Option Bytes
cut_line max bytes none = none
cut_line max bytes (some n) = if leb n max then some (take n bytes) else none

abbrev pub test_server_codec : ServerCodec ℕ ℕ ℕ
test_server_codec = record {
  from_str = λ l. parsed (λ v id n. record { v = v; id = id; body = n }) (lowered l);
  from_value = λ n. some n;
  to_vec = λ r. response_line_of r.v r.id r.outcome;
  majors = λ requested supported. requested;
  next_line = λ max bytes. cut_line max bytes (newline_at bytes);
}

pub line_back :
    (line : Bytes) (max : ℕ)
    → newline_at line ≡ none
    → length line ≤ max
    → cut_line max (line ++ 10 ∷ []) (newline_at (line ++ 10 ∷ [])) ≡ some line
unfolding newline_at
line_back line max e fits =
    let at : newline_at (line ++ 10 ∷ []) ≡ some (length line) =
      newline_at-append_none line (10 ∷ []) e ∙ ap some (omega arith) in
    let within : leb (length line) max ≡ true = ground (arith, fits) in
    let whole : take (length line) (line ++ 10 ∷ []) ≡ line =
      take-append (length line) line (10 ∷ []) (omega arith)
      ∙ take-length (length line) line (omega arith) in
    rw (at, within) (ap some whole)

-- Zero stands for null.
abbrev zero_null : ℕ → Bool
zero_null n = n == 0

pub response_back :
    (v : Version) (id : Bytes) (o : Outcome ℕ ℕ) (line : Bytes)
    → response_line_of v id o ≡ some line
    → (test_client_codec.from_slice line
        ≡ some (record { v = v; id = id; outcome = seen zero_null o }))
      × (newline_at line ≡ none)
response_back v id (fault f) line e = absurd (never e)
  where
    never : ◌≡◌ {A = Option Bytes} none (some line) → ⊥
    never e = cc
response_back v id (done n) line e =
    subst
      (λ l.
        (test_client_codec.from_slice l ≡ some (record { v = v; id = id; outcome = done n }))
        × (newline_at l ≡ none))
      (same e)
      (
        ap (parsed (λ v id n. record { v = v; id = id; outcome = done n }))
            (lowered-raised (v.major ∷ v.minor ∷ n ∷ id)),
        raised_newline (v.major ∷ v.minor ∷ n ∷ id),
      )
  where
    same : some (line_of v n id) ≡ some line → line_of v n id ≡ line
    same e = cc

pub some_line : (a b : Bytes) → some a ≡ some b → a ≡ b
some_line a b e = cc

unfoldable pub test_codec_laws : CodecLaws test_client_codec test_server_codec
test_codec_laws = record {
  to_value = λ n. n;
  request_back = λ r line e.
      subst (λ l. test_server_codec.from_str l ≡ some r)
        (some_line (line_of r.v r.body r.id) line e)
        (ap (parsed (λ v id n. record { v = v; id = id; body = n }))
          (lowered-raised (r.v.major ∷ r.v.minor ∷ r.body ∷ r.id)));
  line_back = λ r line max e fits.
      line_back line max
        (subst (λ l. newline_at l ≡ none) (some_line (line_of r.v r.body r.id) line e)
          (raised_newline (r.v.major ∷ r.v.minor ∷ r.body ∷ r.id)))
        fits;
  is_null = zero_null;
  response_back = λ r line e. (response_back r.v r.id r.outcome line e).0;
  response_line = λ r line e. (response_back r.v r.id r.outcome line e).1;
}

abbrev pub test_version : Version
test_version = record { major = 1; minor = 0 }

abbrev pub test_failure : Failure ℕ Bytes
test_failure = record {
  code = λ e. e;
  retryable = λ e. false;
  details = λ e. none;
  to_string = λ e. e;
}
