-- ===== src/Client/Handlers.antt =====
-- client.go: WELCOME, PONG, ACK, EVENT and ERROR.
use kmtproto.Prelude.{
  ℕ, ◌+◌, ◌-◌, pos, ltb, leb, ltb_ℤ, nat_beq, ◌-ℤ◌, ◌+ℤ◌, Bool, true, false, not, ◌&&◌, ◌||◌, Text,
  List, [], ◌∷◌, ◌++◌, Option, none, some, is_empty, length, lit, lookup, delete, has_key, nat_eq,
  text_eq, text_instance, if◌then◌else◌,
}
use kmtproto.Wire.{
  Envelope, ConnectionState, handshaking, resuming, ready, suspect, disconnected, connecting,
  connected, Json, decode_payload, WelcomePayload, ErrorPayload, ErrorBehavior, ErrorCode,
  state_sync_required, error_code_text, behavior_for_error_code, ok, err, Err, invalid_state,
  protocol_conflict, identity_expired,
}
use kmtproto.Capability.{validate_negotiated_against_offers, new_session_capabilities}
use kmtproto.Validate.{is_new, is_resumed}
use kmtproto.Client.Types.{
  Client, PendingPing, Action, send_frame, deliver_event, acked, session_ready,
  protocol_error_action, full_sync_required_action, close_connection, Outcome, done, fail, check,
  add_u64, is_ready, is_resuming, is_suspect,
}
use kmtproto.Client.Recovery.{
  reset_connection_transient, go_disconnected, abandon_session, begin_recovery, stop_replay,
  stopped, resume_frame, remember_event, deliver_all, replay_event_bytes,
}
use kmtproto.Client.Connect.{violation, outbound_ok}

unfoldable pub equal_strings : List Text → List Text → Bool
equal_strings [] [] = true
equal_strings [] (t ∷ ts) = false
equal_strings (s ∷ ss) [] = false
equal_strings (s ∷ ss) (t ∷ ts) = text_eq s t && equal_strings ss ts

unfoldable pub welcome_new : Client → Envelope → WelcomePayload → Outcome
welcome_new c frame payload =
    if not (is_new payload.mode) || is_empty frame.session_id
    then fail c (violation (lit "expected NEW WELCOME"))
    else check c
        (validate_negotiated_against_offers c.config.capabilities payload.accepted_capabilities
          c.config.limits)
        λ _.
          check c (new_session_capabilities payload.accepted_capabilities c.config.limits)
            λ capabilities.
              done
                (record c {
                  session_id = frame.session_id;
                  capabilities = capabilities;
                  state = ready;
                })
                (session_ready frame.session_id ∷ [])

-- Whether the acknowledgement echoes the requested namespaces.
unfoldable pub state_sync_error : List Text → Option (List Text) → Option Err
unfolding equal_strings
state_sync_error [] none = none
state_sync_error [] (some echoed) =
    some (violation (lit "unexpected resume state_sync acknowledgement"))
state_sync_error (n ∷ requested) none =
    some (violation (lit "resume state_sync acknowledgement mismatch"))
state_sync_error (n ∷ requested) (some echoed) =
    if equal_strings echoed (n ∷ requested)
    then none
    else some (violation (lit "resume state_sync acknowledgement mismatch"))

-- The replay boundary is fixed; an empty replay without State is READY at once.
unfoldable pub accept_replay : Client → ℕ → Outcome
unfolding stop_replay reset_connection_transient
accept_replay c replay_to =
    let opened = record c {
      replay_to = replay_to;
      replay_buffer = [];
      replay_bytes = pos 0;
      resume_events_complete = nat_beq replay_to c.last_seq;
      gap_resume = false;
    } in
    if ltb c.config.max_replay_events (replay_to - c.last_seq)
    then stopped (stop_replay opened (lit "replay exceeds configured event limit"))
    else if nat_beq replay_to c.last_seq
    then (if is_empty c.resume_state_namespaces
        then done (record (reset_connection_transient opened) { state = ready })
            (session_ready c.session_id ∷ [])
        else done opened [])
    else done opened []

unfoldable pub welcome_resumed : Client → Envelope → WelcomePayload → Outcome
unfolding state_sync_error accept_replay
welcome_resumed c frame payload =
    if not (is_resumed payload.mode)
      || not (text_eq frame.session_id c.session_id)
      || not (nat_beq payload.resume_from (add_u64 c.last_seq 1))
      || ltb payload.replay_to c.last_seq
    then fail c (violation (lit "invalid resume acknowledgement"))
    else elim (state_sync_error c.resume_state_namespaces payload.state_sync) [
      | some e ↦ fail c e
      | none ↦ accept_replay c payload.replay_to
    ]

unfoldable pub welcome_in : ConnectionState → Client → Envelope → WelcomePayload → Outcome
unfolding welcome_new welcome_resumed
welcome_in handshaking c frame payload = welcome_new c frame payload
welcome_in resuming c frame payload = welcome_resumed c frame payload
welcome_in disconnected c frame payload = fail c invalid_state
welcome_in connecting c frame payload = fail c invalid_state
welcome_in connected c frame payload = fail c invalid_state
welcome_in ready c frame payload = fail c invalid_state
welcome_in suspect c frame payload = fail c invalid_state

unfoldable pub answers : Option PendingPing → Text → ℕ → Bool
answers none ping_id generation = false
answers (some p) ping_id generation = text_eq ping_id p.id && nat_beq generation p.generation

-- An EVENT at or below `last_seq`.
unfoldable pub known_event : Client → Envelope → Outcome
known_event c frame = elim (lookup frame.seq c.event_ids) [
  | none ↦ fail c identity_expired
  | some id ↦ if text_eq id frame.id then done c [] else fail c protocol_conflict
]

-- The whole replay is here: deliver it in order, and only then become READY.
unfoldable pub finish_replay : Client → Outcome
unfolding deliver_all reset_connection_transient
finish_replay c =
    let (delivered, actions) = deliver_all c c.replay_buffer in
    done (record (reset_connection_transient delivered) { state = ready })
      (actions ++ session_ready c.session_id ∷ [])

-- An EVENT above `last_seq` while the Session is resuming.
unfoldable pub replay_event : Client → Envelope → Outcome
unfolding stop_replay finish_replay replay_event_bytes
replay_event c frame =
    let frame_bytes = replay_event_bytes frame in
    let buffered = record c {
      replay_buffer = c.replay_buffer ++ frame ∷ [];
      replay_bytes = c.replay_bytes +ℤ pos frame_bytes;
    } in
    if nat_beq c.replay_to 0
    then (if c.gap_resume
        then done c []
        else fail c (violation (lit "EVENT arrived before RESUMED WELCOME")))
    else if not (nat_beq frame.seq (add_u64 (add_u64 c.last_seq (length c.replay_buffer)) 1))
        || ltb c.replay_to frame.seq
    then fail c (violation (lit "invalid replay sequence"))
    else if ltb c.config.max_replay_events (length c.replay_buffer + 1)
        || ltb_ℤ (c.config.max_replay_bytes -ℤ c.replay_bytes) (pos frame_bytes)
    then stopped (stop_replay c (lit "replay exceeds configured memory limit"))
    else if not (nat_beq frame.seq c.replay_to)
    then done buffered []
    else if is_empty c.resume_state_namespaces
    then finish_replay buffered
    else done (record buffered { resume_events_complete = true }) []

module _ (json : Json) where
  unfoldable pub handle_welcome : Client → Envelope → Outcome
  unfolding welcome_in
  handle_welcome c frame =
      check c (decode_payload json json.decode_welcome c.config.strict_validation frame.payload)
        (λ payload. welcome_in c.state c frame payload)

  unfoldable pub handle_pong : Client → ℕ → Envelope → Outcome
  unfolding answers
  handle_pong c generation frame =
      if not (is_ready c.state) && not (is_suspect c.state)
      then fail c invalid_state
      else check c (decode_payload json json.decode_pong c.config.strict_validation frame.payload)
          (λ payload.
            if not (answers c.pending_ping payload.ping_id generation)
            then done c []
            else done
                (record c {
                  pending_ping = none;
                  suspect_at = 0;
                  state = if is_suspect c.state then ready else c.state;
                })
                [])

  unfoldable pub handle_ack : Client → Envelope → Outcome
  unfolding delete has_key
  handle_ack c frame =
      if not (is_ready c.state) && not (is_suspect c.state)
      then fail c invalid_state
      else check c (decode_payload json json.decode_ack c.config.strict_validation frame.payload)
          (λ ref_id.
            if not (has_key ref_id c.outbox)
            then done c []
            else done (record c { outbox = delete ref_id c.outbox }) (acked ref_id ∷ []))

  -- An EVENT above `last_seq` in READY: the next one is delivered, a later one opens a recovery.
  unfoldable pub live_event : Client → Envelope → ℕ → Outcome
  unfolding begin_recovery resume_frame remember_event
  live_event c frame now =
      let frame_back = resume_frame json c [] now in
      if ltb (add_u64 c.last_seq 1) frame.seq
      then check c (outbound_ok json c frame_back)
          (λ _. done (begin_recovery c [] true) (send_frame frame_back ∷ []))
      else done (remember_event (record c { last_seq = frame.seq }) frame.seq frame.id)
          (deliver_event frame ∷ [])

  unfoldable pub handle_event : Client → Envelope → ℕ → Outcome
  unfolding known_event replay_event live_event
  handle_event c frame now =
      if not (is_ready c.state) && not (is_resuming c.state)
      then fail c invalid_state
      else if leb frame.seq c.last_seq
      then known_event c frame
      else if is_resuming c.state
      then replay_event c frame
      else live_event c frame now

abbrev is_state_sync_required : ErrorCode → Bool
is_state_sync_required state_sync_required = true
is_state_sync_required _ = false

-- What an ERROR does to a resume: it is over, by a full synchronisation or by closing.
unfoldable pub resume_error : Client → ErrorPayload → ErrorBehavior → Bool
resume_error c payload behavior =
    behavior.full_sync_required
    || behavior.abandon_session
    || (not (is_empty c.resume_state_namespaces) && is_state_sync_required payload.code)

-- The tail of the handler: abandonment, then closing.
unfoldable pub settle_error : Client → ErrorPayload → Bool → Bool → List Action → Outcome
unfolding abandon_session go_disconnected error_code_text
settle_error c payload abandon need_close actions =
    let left = if abandon then abandon_session c else c in
    if need_close
    then done (go_disconnected left)
        (actions ++ close_connection (error_code_text payload.code) ∷ [])
    else done left actions

-- The switch on the code, after the query that the ERROR refers to is forgotten.
unfoldable pub react : Client → ErrorPayload → Outcome
unfolding resume_error settle_error go_disconnected
react c payload =
    let behavior = (behavior_for_error_code payload.code).0 in
    let reported = protocol_error_action payload ∷ [] in
    if is_resuming c.state
    then (if resume_error c payload behavior
        then settle_error (go_disconnected c) payload behavior.abandon_session
            behavior.close_connection (reported ++ full_sync_required_action c.session_id ∷ [])
        else settle_error (go_disconnected c) payload behavior.abandon_session true reported)
    else settle_error c payload behavior.abandon_session behavior.close_connection reported

unfoldable pub react_to_error : Client → ErrorPayload → Outcome
unfolding react delete
react_to_error c payload =
    if is_empty payload.ref_id
    then react c payload
    else react (record c { state_queries = delete payload.ref_id c.state_queries }) payload

module _ (json : Json) where
  unfoldable pub handle_error : Client → Envelope → Outcome
  unfolding react_to_error
  handle_error c frame =
      elim (decode_payload json json.decode_error c.config.strict_validation frame.payload) [
        | err e ↦ done (go_disconnected c) (close_connection (lit "invalid ERROR frame") ∷ [])
        | ok payload ↦ react_to_error c payload
      ]
