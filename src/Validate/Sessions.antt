-- ===== src/Validate/Sessions.antt =====
-- validate.go: the cases of ValidateFrame for the handshake, the heartbeat and RESUME.
use kmtproto.Prelude.{
  ◌-◌, Bool, true, false, not, ◌&&◌, ◌||◌, none, some, is_empty, nat_beq, ltb, lit, if◌then◌else◌,
}
use kmtproto.Wire.{
  Envelope, Limits, Json, decode_payload, json_field_present, json_field_present_and_non_null, Mode,
  new_session, resumed, WelcomePayload, Result, ok, refuse_if, ◌>>=◌, ◌>>◌,
}
use kmtproto.Capability.{validate_and_copy_offers, validate_negotiated}
use kmtproto.Validate.Strings.{valid_bounded_string, validate_resume_state_sync}
use kmtproto.Validate.Envelopes.{bad, zero_seq, session, no_envelope_id}

module _ (json : Json) (e : Envelope) (l : Limits) (strict : Bool) where
  unfoldable pub validate_hello : Result (Unit {0})
  validate_hello = do
    refuse_if (not (is_empty e.session_id) || not (nat_beq e.seq 0))
        (bad (lit "HELLO must not carry session_id or sequence"))
    p ← decode_payload json json.decode_hello strict e.payload
    refuse_if (not (valid_bounded_string p.client_name l.max_client_name_length true))
        (bad (lit "HELLO carries an invalid or oversized client_name"))
    _ ← validate_and_copy_offers p.capabilities l
    ok tt

abbrev pub is_new : Mode → Bool
is_new new_session = true
is_new _ = false

abbrev pub is_resumed : Mode → Bool
is_resumed resumed = true
is_resumed _ = false

-- What the keys of the WELCOME object add to the decoded payload.
pub record WelcomeFields : Type 0 where
  pub resume_from : Bool
  pub replay_to : Bool
  pub accepted : Bool
  pub state_sync : Bool
  pub non_null_state_sync : Bool

unfoldable pub check_welcome : WelcomePayload → WelcomeFields → Limits → Result (Unit {0})
check_welcome p has l = do
  refuse_if (has.state_sync && not has.non_null_state_sync)
      (bad (lit "WELCOME state_sync must not be null"))
  refuse_if (is_new p.mode && (has.resume_from || has.replay_to))
      (bad (lit "NEW WELCOME must not carry replay bounds"))
  refuse_if (is_new p.mode && has.state_sync) (bad (lit "NEW WELCOME must not carry state_sync"))
  refuse_if (is_resumed p.mode && has.accepted)
      (bad (lit "RESUMED WELCOME must not renegotiate capabilities"))
  refuse_if
      (is_resumed p.mode && (not has.resume_from || not has.replay_to || nat_beq p.resume_from 0))
      (bad (lit "RESUMED WELCOME requires explicit replay bounds"))
  refuse_if (is_resumed p.mode && ltb p.replay_to (p.resume_from - 1))
      (bad (lit "invalid replay bounds"))
  elim p.state_sync [
    | none ↦ ok tt
    | some namespaces ↦
        if is_resumed p.mode then validate_resume_state_sync (some namespaces) l else ok tt
  ]
  validate_negotiated p.accepted_capabilities l

module _ (json : Json) (e : Envelope) (l : Limits) (strict : Bool) where
  unfoldable pub validate_welcome : Result (Unit {0})
  unfolding check_welcome
  validate_welcome = do
    session e
    zero_seq e
    no_envelope_id e
    p ← decode_payload json json.decode_welcome strict e.payload
    refuse_if (not (is_new p.mode) && not (is_resumed p.mode)) (bad (lit "invalid WELCOME mode"))
    resume_from ← json_field_present json e.payload (lit "resume_from")
    replay_to ← json_field_present json e.payload (lit "replay_to")
    accepted ← json_field_present json e.payload (lit "accepted_capabilities")
    state_sync ← json_field_present json e.payload (lit "state_sync")
    non_null ← json_field_present_and_non_null json e.payload (lit "state_sync")
    check_welcome p
        (record {
          resume_from = resume_from;
          replay_to = replay_to;
          accepted = accepted;
          state_sync = state_sync;
          non_null_state_sync = non_null;
        })
        l

  unfoldable pub validate_ping : Result (Unit {0})
  validate_ping = do
    session e
    zero_seq e
    no_envelope_id e
    p ← decode_payload json json.decode_ping strict e.payload
    refuse_if (not (valid_bounded_string p.ping_id l.max_id_length false))
        (bad (lit "PING requires a valid ping_id"))

  unfoldable pub validate_pong : Result (Unit {0})
  validate_pong = do
    session e
    zero_seq e
    no_envelope_id e
    p ← decode_payload json json.decode_pong strict e.payload
    refuse_if (not (valid_bounded_string p.ping_id l.max_id_length false))
        (bad (lit "PONG requires a valid ping_id"))

  unfoldable pub validate_resume : Result (Unit {0})
  validate_resume = do
    session e
    zero_seq e
    no_envelope_id e
    p ← decode_payload json json.decode_resume strict e.payload
    has_last_seq ← json_field_present json e.payload (lit "last_seq")
    refuse_if (not has_last_seq) (bad (lit "RESUME requires explicit last_seq"))
    has_state_sync ← json_field_present json e.payload (lit "state_sync")
    elim p.state_sync [
      | none ↦ refuse_if has_state_sync (bad (lit "RESUME state_sync must not be null"))
      | some namespaces ↦ validate_resume_state_sync (some namespaces) l
    ]
