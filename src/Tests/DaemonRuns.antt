-- ===== src/Tests/DaemonRuns.antt =====
-- The daemon's theorems at concrete inputs, for a handler that counts its calls.
use unixd.Prelude.{
  arith, ℕ, suc, ◌+◌, ◌≡◌, ◌⊎◌, refl, sym, ◌∙◌, subst, true, false, [], ◌∷◌, none, some, ok, err,
  Bytes, ascii, nat_eq, list_eq, list_beq, arith,
}
use unixd.Daemon.Envelope.{Version, Request, default_connection_limits}
use unixd.Daemon.Server
use unixd.Daemon.Server.{
  Failure, Handler, ServerCodec, Accepted, serve_as, encoded, respond, invalid_request,
}
use unixd.Daemon.Server.Silence.{Sends, serve_as-Sends}
use unixd.Daemon.Client.{
  IoKind, interrupted, ClientError, ClientCodec, Client, Connection, Incoming, ends, read_attempt,
  Outgoing, takes_all, write_attempt, newline_at, read_frame, write_frame, call,
}
use unixd.Daemon.Client
use unixd.Daemon.Client.Frames.{
  Gives, at_last, interruption, in_chunk, Takes, at_once, in_piece, write_frame_lem, first_frame,
  read_frame-first_frame,
}
use unixd.Daemon.Client.Trust.{Answers, call-Answers}
use unixd.Daemon.Exchange.{Connects, as_result, received_outcome, call-respond}
use unixd.Tests.DaemonProtocol.{
  test_client_codec, test_server_codec, some_line, test_codec_laws, test_version, test_failure,
}

-- It answers with the next number, and its state counts the requests.
abbrev test_handler : Handler ℕ ℕ ℕ Bytes
test_handler = record { handle = λ n calls. (ok (n + 1), suc calls) }

abbrev test_client : Client
test_client = Client.new (ascii "/s") test_version

abbrev request_frame : Bytes
request_frame = 12 ∷ 11 ∷ 15 ∷ 108 ∷ 10 ∷ []

abbrev reply_frame : Bytes
reply_frame = 12 ∷ 11 ∷ 16 ∷ 108 ∷ 10 ∷ []

abbrev accepted : Accepted
accepted = record { peer_uid = some 7; arrives = request_frame; in_time = true }

abbrev outgoing : Outgoing
outgoing = write_attempt 1 (ok tt) (ok 2) (takes_all 2)

abbrev incoming : Incoming
incoming = read_attempt 3 (ok tt) (err interrupted) (
    read_attempt 4 (ok tt) (ok (12 ∷ 11 ∷ []))
      (read_attempt 5 (ok tt) (ok (16 ∷ 108 ∷ 10 ∷ [])) (ends 6)))

outgoing-Takes : Takes 5_000_000_000 outgoing
outgoing-Takes = in_piece (omega arith) (at_once (omega arith))

incoming-Gives : Gives 5_000_000_000 incoming reply_frame
incoming-Gives =
    interruption (omega arith)
      (in_chunk (omega arith) (in_chunk (omega arith) (at_last (omega arith))))

write_frame_lem_example :
    write_frame {V = ℕ} 5_000_000_000 outgoing request_frame ≡ (ok tt, request_frame)
write_frame_lem_example = write_frame_lem 5_000_000_000 outgoing request_frame outgoing-Takes

read_frame-first_frame_example :
    read_frame {V = ℕ} 5_000_000_000 1024 [] incoming ≡ first_frame 5_000_000_000 1024 reply_frame
read_frame-first_frame_example =
    read_frame-first_frame 5_000_000_000 1024 incoming reply_frame incoming-Gives

test_served :
    (serve_as test_failure test_handler test_server_codec test_version default_connection_limits 7
      accepted 0).0
    ≡ some reply_frame
unfolding serve_as newline_at
test_served = refl

abbrev test_stream : Connection
test_stream = record {
  peer_uid = ok 7;
  outgoing = outgoing;
  shutdown = ok tt;
  incoming = λ sent. incoming;
}

test-Connects :
    Connects test_failure test_handler test_server_codec test_client_codec test_codec_laws
      test_version default_connection_limits 7 test_client false 0 4
      (ascii "a")
      0
      1
      (λ wait. ok test_stream)
unfolding respond test_codec_laws
test-Connects = record {
  line = 12 ∷ 11 ∷ 15 ∷ 108 ∷ [];
  encodes = refl;
  fits_client = omega arith;
  fits_server = omega arith;
  answer = 12 ∷ 11 ∷ 16 ∷ 108 ∷ [];
  answers = refl;
  answer_fits = omega arith;
  early = omega arith;
  stream = test_stream;
  connects = refl;
  own_listener = refl;
  takes = outgoing-Takes;
  shuts = refl;
  gives = λ frame e.
      subst (Gives 5_000_000_000 incoming) (some_line reply_frame frame (sym test_served ∙ e))
        incoming-Gives;
}

call-respond_example :
    call test_client_codec test_client false 7 0 1 (ascii "a") (λ wait. ok test_stream) 4
    ≡ as_result (
        received_outcome test_failure test_handler test_server_codec test_client_codec
          test_codec_laws test_version default_connection_limits 7 test_client false 0 4
          (ascii "a"))
call-respond_example =
    call-respond test_failure test_handler test_server_codec test_client_codec test_codec_laws
      test_version default_connection_limits 7 test_client false 0 4 (ascii "a") 0 1
      (λ wait. ok test_stream) test-Connects

serve_as-Sends_example :
    (serve_as test_failure test_handler test_server_codec test_version default_connection_limits 8
        accepted 0
      ≡ (none, 0))
    ⊎ ((request : Request ℕ) × Sends test_failure test_handler test_server_codec test_version
          default_connection_limits 8 accepted request)
serve_as-Sends_example =
    serve_as-Sends test_failure test_handler test_server_codec test_version
      default_connection_limits 8 accepted 0

abbrev other_version : Version
other_version = record { major = 2; minor = 0 }

abbrev test_request : Request ℕ
test_request = record { v = test_version; id = ascii "a"; body = 4 }

test_called :
    call test_client_codec test_client false 7 0 1 (ascii "a") (λ wait. ok test_stream) 4 ≡ ok 5
unfolding call Client.left Client.trusted_listener write_frame read_frame list_beq
test_called = refl

call-Answers_example :
    Answers test_client_codec test_client false 7 0 1 (ascii "a") (λ wait. ok test_stream) 4 5
call-Answers_example =
    call-Answers test_client_codec test_client false 7 0 1 (ascii "a") (λ wait. ok test_stream) 4 5
      test_called
