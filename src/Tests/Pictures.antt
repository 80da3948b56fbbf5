-- ===== src/Tests/Pictures.antt =====
-- A RESUME that asks for State: the batch ends with the snapshot of what the provider returned.
use kmtproto.Prelude.{
  ◌≡◌, refl, [], ◌∷◌, none, some, false, is_empty, lit, text_eq, lookup, valid_string, has_control,
  ◌-ℤ◌, ◌+ℤ◌, arith, ◌+◌, ℕ,
}
use kmtproto.Validate.{
  validate_outbound_frame, validate_envelope, valid_bounded_string, validate_event, session,
  valid_content, validate_welcome, zero_seq, require_envelope_id, no_envelope_id, check_welcome,
  validate_state_snapshot,
}
use kmtproto.Wire.{
  Json, gives, decode_payload, validate_limits, normalize_limits, json_field_present,
  json_field_present_and_non_null,
}
use kmtproto.Capability.{validate_negotiated}
use kmtproto.State.{
  capability_state_sync, validate_state_object, new_accumulator, add_objects, snapshot_payload,
}
use kmtproto.Outbound.{new_outbound_queue, enqueue_batch}
use kmtproto.Server.{
  Services, ServerState, default_server_config, returns, Ending, handle_resume, lane_callback,
  build_resume_state_snapshot,
}
use kmtproto.Server.Resumption.{IsUint64}
use kmtproto.Server.Batches.{IsResumed}
use kmtproto.Server.Readiness.{handle_resume-answers}
use kmtproto.Tests.Servers.{resumed_toy, counting, idle_server, asking_frame}
use kmtproto.Tests.Snapshots.{thing, payload}
use kmtproto.Tests.Toy.{one_text}

abbrev asking_toy : Json
asking_toy = record resumed_toy {
  decode_resume =
      λ s t. gives (record { last_seq = 0; state_sync = some (thing.namespace ∷ []) }, none);
  decode_snapshot = λ s t. gives (thing ∷ [], none);
  encode_snapshot = λ o. gives payload;
  encode_envelope = λ e. gives payload;
  fields = λ t.
      gives (
        (lit "resume_from", one_text)
        ∷ (lit "replay_to", one_text)
        ∷ (lit "states", one_text)
        ∷ []);
}

abbrev providing : Services ℕ
providing = record counting {
  lookup_session = λ id now w. (
    w,
    returns (
        some (record {
          session_id = id;
          expires_at = 100;
          capabilities = record { selections = []; versions = (capability_state_sync, 1) ∷ [] };
        })),
  );
  snapshot = some (λ namespaces bounds w. (w + 1, returns (thing ∷ [])));
}

abbrev outcome : ServerState ℕ × Ending (Unit {0})
outcome = handle_resume asking_toy default_server_config providing asking_frame idle_server

ready : is_empty outcome.0.result.ready_session_id ≡ false
unfolding handle_resume default_server_config validate_outbound_frame validate_envelope
    validate_limits normalize_limits valid_bounded_string valid_string has_control validate_event
    session decode_payload valid_content lane_callback validate_welcome zero_seq no_envelope_id
    json_field_present json_field_present_and_non_null check_welcome validate_negotiated
    enqueue_batch validate_state_snapshot validate_state_object new_accumulator add_objects
    snapshot_payload build_resume_state_snapshot require_envelope_id text_eq lookup ◌-ℤ◌ ◌+ℤ◌
ready = refl

providing-IsUint64 : IsUint64 asking_toy providing
unfolding decode_payload
providing-IsUint64 = record {
  asks = λ strict raw p e. ground arith;
  reads = λ id w n e. ground arith;
  fits = λ id after through l w events e. ground arith;
}

handle_resume-answers_example :
    IsResumed asking_toy default_server_config providing asking_frame new_outbound_queue
      outcome.0.outbound outcome.0.result.ready_session_id
handle_resume-answers_example =
    handle_resume-answers asking_toy default_server_config providing asking_frame idle_server
      providing-IsUint64 refl ready
