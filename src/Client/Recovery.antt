-- ===== src/Client/Recovery.antt =====
-- client.go: the transitions that several methods share: resets, recovery, and giving up.
use kmtproto.Prelude.{
  ℕ, ◌+◌, ◌-◌, ltb, pos, Bool, false, Text, List, [], ◌∷◌, ◌++◌, none, some, is_empty, length,
  insert, delete, nat_eq, lit, if◌then◌else◌,
}
use kmtproto.Wire.{
  Envelope, resume, wire_version_v2, disconnected, resuming, Json, sync_required,
  state_sync_required, Err, error_text, StateObject,
}
use kmtproto.Capability.{no_capabilities}
use kmtproto.Client.Types.{
  Client, Action, deliver_event, protocol_error_action, full_sync_required_action, close_connection,
  Outcome, done, fail, unix_milli, is_resuming,
}

unfoldable pub reset_connection_transient : Client → Client
reset_connection_transient c = record c {
  pending_ping = none;
  suspect_at = 0;
  state_queries = [];
  replay_buffer = [];
  replay_to = 0;
  replay_bytes = pos 0;
  resume_state_namespaces = [];
  resume_events_complete = false;
  gap_resume = false;
}

-- `c.state = StateDisconnected` and the reset, which always come together.
unfoldable pub go_disconnected : Client → Client
unfolding reset_connection_transient
go_disconnected c = reset_connection_transient (record c { state = disconnected })

unfoldable pub abandon_session : Client → Client
unfolding reset_connection_transient
abandon_session c = reset_connection_transient (record c {
  state = disconnected;
  session_id = [];
  last_seq = 0;
  event_ids = [];
  outbox = [];
  capabilities = no_capabilities;
  state_objects = [];
  state_bytes = pos 0;
})

unfoldable pub begin_recovery : Client → List Text → Bool → Client
unfolding reset_connection_transient
begin_recovery c namespaces gap = record (reset_connection_transient c) {
  state = resuming;
  resume_state_namespaces = namespaces;
  gap_resume = gap;
}

unfoldable pub stop_replay : Client → Text → Client × List Action
unfolding go_disconnected
stop_replay c reason = (
  go_disconnected c,
  protocol_error_action
        (record { code = sync_required; message = reason; ref_id = []; retryable = false })
      ∷ full_sync_required_action c.session_id
      ∷ close_connection reason
      ∷ [],
)

unfoldable pub stop_state_resume : Client → Text → Client × List Action
unfolding go_disconnected
stop_state_resume c reason = (
  go_disconnected c,
  protocol_error_action
        (record { code = state_sync_required; message = reason; ref_id = []; retryable = false })
      ∷ full_sync_required_action c.session_id
      ∷ close_connection reason
      ∷ [],
)

abbrev pub stopped : Client × List Action → Outcome
stopped (c, actions) = done c actions

unfoldable pub handle_incoming_failure : Client → Err → Outcome
unfolding stop_replay stop_state_resume error_text
handle_incoming_failure c e =
    if is_resuming c.state
    then (let reason = lit "resume failed: " ++ error_text e in
        if is_empty c.resume_state_namespaces
        then stopped (stop_replay c reason)
        else stopped (stop_state_resume c reason))
    else fail c e

module _ (json : Json) where
  unfoldable pub resume_frame : Client → List Text → ℕ → Envelope
  unfolding unix_milli
  resume_frame c namespaces now = record {
    v = wire_version_v2;
    type = resume;
    id = [];
    session_id = c.session_id;
    seq = 0;
    timestamp = unix_milli now;
    payload = json.encode_resume (record {
      last_seq = c.last_seq;
      state_sync = if is_empty namespaces then none else some namespaces;
    });
  }

unfoldable pub remember_event : Client → ℕ → Text → Client
unfolding insert delete
remember_event c seq event_id =
    let ids = insert seq event_id c.event_ids in
    let window = c.config.event_identity_window in
    record c { event_ids = if ltb window seq then delete (seq - window) ids else ids }

-- The loop over the replay buffer: deliver each event and remember it.
unfoldable pub deliver_all : Client → List Envelope → Client × List Action
unfolding remember_event
deliver_all c [] = (c, [])
deliver_all c (e ∷ rest) =
    let (last, actions) =
      deliver_all (remember_event (record c { last_seq = e.seq }) e.seq e.id) rest in
    (last, deliver_event e ∷ actions)

unfoldable pub replay_event_bytes : Envelope → ℕ
replay_event_bytes e = length e.id + length e.session_id + length e.payload + 32

unfoldable pub state_object_bytes : StateObject → ℕ
state_object_bytes o = length o.namespace + length o.object_id + length o.content + 8
