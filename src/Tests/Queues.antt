-- ===== src/Tests/Queues.antt =====
-- The queue of a connection on which a resume is answered.
use kmtproto.Validate.{
  validate_outbound_frame, validate_envelope, validate_frame, valid_bounded_string, validate_event,
  session, valid_content, validate_welcome, zero_seq, no_envelope_id, check_welcome,
  validate_resume,
}
use kmtproto.Prelude.{ℕ, unix_milli, ◌≡◌, refl, [], ◌∷◌, valid_string, has_control, lit, none}
use kmtproto.Wire.{
  Envelope, Json, decode_payload, validate_limits, normalize_limits, json_field_present,
  json_field_present_and_non_null, gives,
}
use kmtproto.Capability.{validate_negotiated}
use kmtproto.Outbound.{enqueue_batch, next, taken}
use kmtproto.Server.{
  handle_resume, enqueue_error, enqueue_error_at, ServerState, default_server_config, lane_callback,
  invoke_server_process, process_frame, welcome_back,
}
use kmtproto.Server.Growth.{IsValid, Grown}
use kmtproto.Server.Serving.{
  here, onward, processes, invoke_server_process-grows, Reach-next-IsValid,
}
use kmtproto.Tests.Toy.{one_text}
use kmtproto.Tests.Servers.{resumed_toy, counting, idle_server, asking_frame}

-- A RESUME from 0 and a WELCOME for 1 to 2, with the members that they must have.
abbrev asking_toy : Json
asking_toy = record resumed_toy {
  fields = λ t. gives (
      (lit "last_seq", one_text)
      ∷ (lit "resume_from", one_text)
      ∷ (lit "replay_to", one_text)
      ∷ []);
}

abbrev served : ServerState ℕ
served =
    (invoke_server_process asking_toy default_server_config counting asking_frame idle_server).0

invoke_server_process-grows_example :
    Grown asking_toy default_server_config [] served.outbound.frames
invoke_server_process-grows_example =
    invoke_server_process-grows asking_toy default_server_config counting asking_frame idle_server

abbrev first_frame : Envelope
first_frame =
    welcome_back asking_toy default_server_config counting asking_frame
      (record { last_seq = 0; state_sync = none }) 2 (unix_milli 0)

takes_first : (next served.outbound).1 ≡ taken first_frame
unfolding invoke_server_process process_frame next validate_frame validate_envelope validate_limits
    normalize_limits default_server_config valid_bounded_string valid_string has_control
    validate_resume session zero_seq no_envelope_id decode_payload json_field_present handle_resume
    validate_outbound_frame lane_callback validate_welcome json_field_present_and_non_null
    check_welcome validate_negotiated enqueue_batch enqueue_error enqueue_error_at validate_event
    valid_content
takes_first = refl

Reach-next-IsValid_example : IsValid asking_toy default_server_config first_frame
Reach-next-IsValid_example =
    Reach-next-IsValid asking_toy default_server_config counting first_frame refl
      (onward here (processes asking_frame idle_server)) takes_first
