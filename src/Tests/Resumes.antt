-- ===== src/Tests/Resumes.antt =====
-- A resume from 0, answered with two events, at the client.
use kmtproto.Validate.{
  validate_outbound_frame, validate_envelope, valid_bounded_string, validate_event, session,
  valid_content, validate_welcome, zero_seq, no_envelope_id, check_welcome,
}
use kmtproto.Prelude.{
  ℕ, unix_milli, zero, suc, ℤ, pos, negsuc, true, false, ◌≡◌, refl, sym, subst, [], ◌∷◌, none,
  is_empty, Text, arith, valid_string, has_control,
}
use kmtproto.Wire.{
  Json, ok, gives, resuming, WelcomePayload, decode_payload, validate_limits, normalize_limits,
  json_field_present, json_field_present_and_non_null,
}
use kmtproto.Capability.{validate_negotiated}
use kmtproto.Outbound.{enqueue_batch}
use kmtproto.Client.{Client, default_client_config, replay_event_bytes}
use kmtproto.Client.Completion.{total_replay_bytes}
use kmtproto.Server.{ServerState, Ending, default_server_config, handle_resume, lane_callback}
use kmtproto.Server.Ranges.{Follows}
use kmtproto.Server.Resumption.{IsUint64}
use kmtproto.Reconnection.{receive_batch}
use kmtproto.Reconnection.Acceptance.{IsAsking, ReadsWelcome, HasRoom, IsBack, resumed_payload}
use kmtproto.Reconnection.Resuming.{behind_first, asked_by, handle_resume-restores}
use kmtproto.Tests.Toy.{session_client, session_text, one_text, event_frame}
use kmtproto.Tests.Servers.{resumed_toy, counting, idle_server, asking_frame}

-- The three numbers of the payload, as they are, in braces.
abbrev write_welcome : ℕ → ℕ → ℤ → Text
write_welcome from to (pos n) = 0x7b ∷ from ∷ to ∷ 0 ∷ n ∷ 0x7d ∷ []
write_welcome from to (negsuc n) = 0x7b ∷ from ∷ to ∷ 1 ∷ n ∷ 0x7d ∷ []

abbrev read_welcome : Text → WelcomePayload
read_welcome (brace ∷ from ∷ to ∷ zero ∷ n ∷ rest) = resumed_payload (pos n) from to
read_welcome (brace ∷ from ∷ to ∷ suc m ∷ n ∷ rest) = resumed_payload (negsuc n) from to
read_welcome _ = resumed_payload (pos 0) 0 0

abbrev writing_toy : Json
writing_toy = record resumed_toy {
  encode_welcome = λ p. write_welcome p.resume_from p.replay_to p.server_time;
  decode_welcome = λ s t. gives (read_welcome t, none);
}

decode-write_welcome :
    (time : ℤ) (from to : ℕ)
    → decode_payload writing_toy writing_toy.decode_welcome true (write_welcome from to time)
      ≡ ok (resumed_payload time from to)
unfolding decode_payload
decode-write_welcome (pos n) from to = refl
decode-write_welcome (negsuc n) from to = refl

writing_toy-ReadsWelcome : ReadsWelcome writing_toy true
writing_toy-ReadsWelcome = record { reads = decode-write_welcome }

abbrev asking_client : Client
asking_client = record session_client { state = resuming }

asking_client-IsAsking : IsAsking asking_client asking_frame
unfolding session_client
asking_client-IsAsking = record { phase = refl; stateless = refl; own = refl }

abbrev answered : ServerState ℕ × Ending (Unit {0})
answered = handle_resume writing_toy default_server_config counting asking_frame idle_server

writing-IsUint64 : IsUint64 writing_toy counting
unfolding decode_payload
writing-IsUint64 = record {
  asks = λ strict raw p e. ground arith;
  reads = λ id w n e. ground arith;
  fits = λ id after through l w events e. ground arith;
}

names : is_empty answered.0.result.ready_session_id ≡ false
unfolding handle_resume default_server_config validate_outbound_frame validate_envelope
    validate_limits normalize_limits valid_bounded_string valid_string has_control validate_event
    session decode_payload valid_content lane_callback validate_welcome zero_seq no_envelope_id
    json_field_present json_field_present_and_non_null check_welcome validate_negotiated
    enqueue_batch unix_milli
names = refl

has_two :
    behind_first answered.0.outbound.frames
    ≡ event_frame 1 one_text ∷ event_frame 2 session_text ∷ []
unfolding handle_resume default_server_config validate_outbound_frame validate_envelope
    validate_limits normalize_limits valid_bounded_string valid_string has_control validate_event
    session decode_payload valid_content lane_callback validate_welcome zero_seq no_envelope_id
    json_field_present json_field_present_and_non_null check_welcome validate_negotiated
    enqueue_batch unix_milli
has_two = refl

two-HasRoom : HasRoom asking_client (event_frame 1 one_text ∷ event_frame 2 session_text ∷ [])
unfolding session_client default_client_config total_replay_bytes replay_event_bytes
two-HasRoom = record { count = omega arith; bytes = omega arith }

read_back :
    decode_payload writing_toy writing_toy.decode_resume true asking_frame.payload
    ≡ ok (asked_by asking_client)
unfolding decode_payload session_client default_client_config
read_back = refl

handle_resume-restores_example :
    Follows session_text 1 (behind_first answered.0.outbound.frames)
    × IsBack asking_client
        (receive_batch writing_toy asking_client answered.0.outbound.frames 0).0
        (behind_first answered.0.outbound.frames)
        (receive_batch writing_toy asking_client answered.0.outbound.frames 0).1
unfolding session_client default_server_config
handle_resume-restores_example =
    handle_resume-restores writing_toy default_server_config counting asking_frame asking_client 0
      idle_server asking_client-IsAsking writing_toy-ReadsWelcome read_back writing-IsUint64 refl
      refl names (subst (HasRoom asking_client) (sym has_two) two-HasRoom)
