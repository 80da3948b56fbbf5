-- ===== src/Tests/Runs.antt =====
-- Runs of a client with a Session.
use kmtproto.Prelude.{ℕ, ◌+◌, ◌≡◌, refl, length, List, [], ◌∷◌, inr, arith}
use kmtproto.Wire.{err, stale_connection, validate_limits, normalize_limits, decode_payload}
use kmtproto.Client.{Call, receives, step, run, handle_incoming, handle_event}
use kmtproto.Prelude.{valid_string, has_control}
use kmtproto.Validate.{
  validate_frame, validate_envelope, valid_bounded_string, validate_event, session, valid_content,
}
use kmtproto.Client.Ordering.{
  delivered, count_up, IsOrdered, run-delivers_in_order, HoldsSession, Orderly, step-Orderly,
}
use kmtproto.Client.Fencing.{step-stale_generation}
use kmtproto.Client.Failures.{UnchangedOnError, step-error_unchanged}
use kmtproto.Tests.Toy.{toy, session_client, event_frame, one_text}

abbrev two_events : List (ℕ × Call)
two_events =
    (0, receives 1 (event_frame 1 one_text)) ∷ (0, receives 1 (event_frame 2 one_text)) ∷ []

session_client-IsOrdered : IsOrdered session_client
unfolding session_client
session_client-IsOrdered = record { contiguous = tt; fits = omega arith; idle = inr refl }

holds_session : HoldsSession toy session_client two_events
unfolding step handle_incoming validate_frame session_client validate_envelope validate_limits
    normalize_limits valid_bounded_string valid_string has_control validate_event session
    decode_payload valid_content handle_event
holds_session = (λ h. ground arith, (λ h. ground arith, tt))

two_delivered : delivered (run toy session_client two_events).1 ≡ 1 ∷ 2 ∷ []
unfolding delivered run handle_incoming validate_frame session_client validate_envelope
    validate_limits normalize_limits valid_bounded_string valid_string has_control validate_event
    session decode_payload valid_content handle_event
two_delivered = refl

run-delivers_in_order_example :
    ((run toy session_client two_events).0.last_seq
      ≡ 0 + length (delivered (run toy session_client two_events).1))
    × (delivered (run toy session_client two_events).1
        ≡ count_up (0 + 1) (length (delivered (run toy session_client two_events).1)))
unfolding delivered session_client
run-delivers_in_order_example =
    run-delivers_in_order toy session_client two_events session_client-IsOrdered
      (omega arith, (omega arith, tt)) holds_session

step-Orderly_example :
    Orderly session_client (step toy session_client 0 (receives 1 (event_frame 1 one_text)))
step-Orderly_example =
    step-Orderly toy session_client session_client-IsOrdered 0 (receives 1 (event_frame 1 one_text))
      (omega arith)

step-stale_generation_example :
    step toy session_client 0 (receives 7 (event_frame 1 one_text))
    ≡ (session_client, err stale_connection)
unfolding session_client
step-stale_generation_example =
    step-stale_generation toy session_client 0 (receives 7 (event_frame 1 one_text)) 7 refl
      (λ h. ground arith)

step-error_unchanged_example :
    UnchangedOnError session_client
      (step toy session_client 0 (receives 1 (event_frame 0 one_text)))
step-error_unchanged_example =
    step-error_unchanged toy session_client 0 (receives 1 (event_frame 0 one_text))
