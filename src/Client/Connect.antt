-- ===== src/Client/Connect.antt =====
-- client.go: NewClientProtocol, and the life of a transport connection up to HELLO and RESUME.
use kmtproto.Prelude.{
  ℕ, ℤ, pos, ltb_ℤ, is_zero, nat_beq, Bool, false, not, ◌||◌, Text, List, [], ◌∷◌, none, some,
  is_empty, lit, sort_strings, if◌then◌else◌,
}
use kmtproto.Wire.{
  Envelope, hello, wire_version_v2, disconnected, connecting, connected, handshaking, Json, Limits,
  normalize_limits, validate_limits, is_nonpositive, Result, ok, err, Err, plain, wrapped,
  refuse_if, ◌>>=◌, ◌>>◌, protocol_violation, new_protocol_error, stale_connection, invalid_state,
  default_max_replay_events, default_max_replay_bytes, default_event_identity_window,
  default_max_state_cache_objects, default_max_state_cache_bytes, CapabilityOffer,
}
use kmtproto.Capability.{validate_and_copy_offers, no_capabilities}
use kmtproto.State.{state_sync_enabled, validate_implemented_offers}
use kmtproto.Validate.{validate_outbound_frame, validate_resume_state_sync}
use kmtproto.Client.Types.{
  ClientConfig, Client, send_frame, Outcome, done, fail, check, add_u64, is_connecting,
  is_connected,
}
use kmtproto.Client.Recovery.{
  reset_connection_transient, go_disconnected, begin_recovery, resume_frame,
}

unfoldable pub checked_offers : List CapabilityOffer → Limits → Result (List CapabilityOffer)
checked_offers offers limits = elim (validate_and_copy_offers offers limits) [
  | err e ↦ err (wrapped (lit "kmtproto: invalid client capabilities: ") e)
  | ok checked ↦ elim (validate_implemented_offers checked) [
    | err e ↦ err (wrapped (lit "kmtproto: invalid client capabilities: ") e)
    | ok _ ↦ ok checked
  ]
]

unfoldable pub complete_config : ClientConfig → Limits → List CapabilityOffer → ClientConfig
complete_config config limits offers = record config {
  limits = limits;
  capabilities = offers;
  max_replay_events =
      if nat_beq config.max_replay_events 0
      then default_max_replay_events
      else config.max_replay_events;
  max_replay_bytes =
      if is_zero config.max_replay_bytes then default_max_replay_bytes else config.max_replay_bytes;
  event_identity_window =
      if nat_beq config.event_identity_window 0
      then default_event_identity_window
      else config.event_identity_window;
  max_state_objects =
      if is_zero config.max_state_objects
      then default_max_state_cache_objects
      else config.max_state_objects;
  max_state_bytes =
      if is_zero config.max_state_bytes
      then default_max_state_cache_bytes
      else config.max_state_bytes;
}

abbrev pub initial_client : ClientConfig → Client
initial_client config = record {
  config = config;
  state = disconnected;
  generation = 0;
  session_id = [];
  last_seq = 0;
  event_ids = [];
  outbox = [];
  pending_ping = none;
  suspect_at = 0;
  capabilities = no_capabilities;
  state_objects = [];
  state_bytes = pos 0;
  state_queries = [];
  replay_to = 0;
  replay_buffer = [];
  replay_bytes = pos 0;
  resume_state_namespaces = [];
  resume_events_complete = false;
  gap_resume = false;
}

abbrev is_negative : ℤ → Bool
is_negative a = ltb_ℤ a (pos 0)

unfoldable pub new_client_protocol : ClientConfig → Result Client
unfolding checked_offers complete_config
new_client_protocol config =
    let limits = normalize_limits config.limits in
    do
      validate_limits limits
      offers ← checked_offers config.capabilities limits
      let full = complete_config config limits offers
      refuse_if (is_nonpositive full.heartbeat_timeout || is_nonpositive full.disconnect_grace)
          (plain (lit "kmtproto: heartbeat durations must be positive"))
      refuse_if
          (is_negative full.max_replay_bytes
            || is_negative full.max_state_objects
            || is_negative full.max_state_bytes)
          (plain (lit "kmtproto: replay and State limits must be positive"))
      ok (initial_client full)

-- The new generation is `(begin_connect c).generation`.
unfoldable pub begin_connect : Client → Client
unfolding reset_connection_transient
begin_connect c =
    reset_connection_transient
      (record c { generation = add_u64 c.generation 1; state = connecting })

unfoldable pub transport_connected : Client → ℕ → Outcome
transport_connected c generation =
    if not (nat_beq generation c.generation)
    then fail c stale_connection
    else if not (is_connecting c.state)
    then fail c invalid_state
    else done (record c { state = connected }) []

unfoldable pub disconnect : Client → ℕ → Outcome
unfolding go_disconnected
disconnect c generation =
    if not (nat_beq generation c.generation)
    then fail c stale_connection
    else done (go_disconnected c) []

-- NewProtocolError(ErrorProtocolViolation, …)
abbrev pub violation : Text → Err
violation message = new_protocol_error protocol_violation message

module _ (json : Json) where
  abbrev pub outbound_ok : Client → Envelope → Result (Unit {0})
  outbound_ok c frame =
      validate_outbound_frame json frame c.config.limits c.config.strict_validation

  unfoldable pub hello_frame : Client → Text → Envelope
  hello_frame c client_name = record {
    v = wire_version_v2;
    type = hello;
    id = [];
    session_id = [];
    seq = 0;
    timestamp = pos 0;
    payload =
        json.encode_hello
          (record { client_name = client_name; capabilities = c.config.capabilities });
  }

  unfoldable pub start_session : Client → ℕ → Text → Outcome
  unfolding hello_frame
  start_session c generation client_name =
      let frame = hello_frame c client_name in
      if not (nat_beq generation c.generation)
      then fail c stale_connection
      else if not (is_connected c.state) || not (is_empty c.session_id)
      then fail c invalid_state
      else check c (outbound_ok c frame)
          (λ _. done (record c { state = handshaking }) (send_frame frame ∷ []))

  unfoldable pub start_resume : Client → ℕ → List Text → ℕ → Outcome
  unfolding begin_recovery resume_frame
  start_resume c generation namespaces now =
      let frame = resume_frame json c namespaces now in
      if not (nat_beq generation c.generation)
      then fail c stale_connection
      else if not (is_connected c.state) || is_empty c.session_id
      then fail c invalid_state
      else check c (outbound_ok c frame)
          (λ _. done (begin_recovery c namespaces false) (send_frame frame ∷ []))

  unfoldable pub resume_session : Client → ℕ → ℕ → Outcome
  unfolding start_resume
  resume_session c generation now = start_resume c generation [] now

  unfoldable pub resume_with_state : Client → ℕ → List Text → ℕ → Outcome
  unfolding start_resume
  resume_with_state c generation namespaces now =
      let canonical = sort_strings namespaces in
      if not (nat_beq generation c.generation)
      then fail c stale_connection
      else if not (state_sync_enabled c.capabilities)
      then fail c (violation (lit "state-sync capability version 1 was not negotiated"))
      else check c (validate_resume_state_sync (some canonical) c.config.limits)
          (λ _. start_resume c generation canonical now)
