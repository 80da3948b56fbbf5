-- ===== src/Client/Requests.antt =====
-- client.go: QueryState, EnqueueSend, RetryPending, SendPing, CheckHeartbeat, StateObject.
use kmtproto.Prelude.{
  ℕ, pos, ltb_ℤ, leb_ℤ, nat_beq, Bool, true, false, not, ◌&&◌, ◌||◌, Text, List, [], ◌∷◌, Option,
  none, some, is_empty, length, lit, sort_strings, lookup, insert, has_key, text_instance,
  if◌then◌else◌,
}
use kmtproto.Wire.{
  Envelope, state_query, send, ping, wire_version_v2, suspect, Json, StateQueryPayload, bad_request,
  new_protocol_error, stale_connection, invalid_state,
}
use kmtproto.State.{state_sync_enabled}
use kmtproto.Client.Types.{
  Client, PendingPing, Action, send_frame, close_connection, Outcome, done, fail, check, elapsed,
  unix_milli, is_ready, is_suspect,
}
use kmtproto.Client.Recovery.{go_disconnected}
use kmtproto.Client.Connect.{violation, outbound_ok}

unfoldable pub keys_of : {V : Type 0} → List (Text × V) → List Text
keys_of [] = []
keys_of ((k, v) ∷ m) = k ∷ keys_of m

-- `SendFrameAction{Frame: copyEnvelope(c.outbox[id])}` for each id; every id is a key.
unfoldable pub retries : List Text → List (Text × Envelope) → List Action
retries [] outbox = []
retries (id ∷ ids) outbox = elim (lookup id outbox) [
  | none ↦ retries ids outbox
  | some frame ↦ send_frame frame ∷ retries ids outbox
]

unfoldable pub retry_pending : Client → Outcome
unfolding retries keys_of
retry_pending c =
    if not (is_ready c.state)
    then fail c invalid_state
    else done c (retries (sort_strings (keys_of c.outbox)) c.outbox)

unfoldable pub heartbeat : Client → PendingPing → ℕ → Outcome
unfolding go_disconnected
heartbeat c pending now =
    if is_ready c.state && leb_ℤ c.config.heartbeat_timeout (elapsed now pending.sent_at)
    then done (record c { state = suspect; suspect_at = now }) []
    else if is_suspect c.state && leb_ℤ c.config.disconnect_grace (elapsed now c.suspect_at)
    then done (go_disconnected c) (close_connection (lit "heartbeat timeout") ∷ [])
    else done c []

unfoldable pub check_heartbeat : Client → ℕ → ℕ → Outcome
unfolding heartbeat
check_heartbeat c generation now =
    if not (nat_beq generation c.generation)
    then fail c stale_connection
    else elim c.pending_ping [ none ↦ done c [] | some pending ↦ heartbeat c pending now ]

abbrev is_pending : Option PendingPing → Bool
is_pending none = false
is_pending (some p) = true

module _ (json : Json) where
  unfoldable pub query_frame : Client → Text → StateQueryPayload → ℕ → Envelope
  unfolding unix_milli
  query_frame c query_id payload now = record {
    v = wire_version_v2;
    type = state_query;
    id = query_id;
    session_id = c.session_id;
    seq = 0;
    timestamp = unix_milli now;
    payload = json.encode_query payload;
  }

  unfoldable pub query_state : Client → Text → Text → List Text → ℕ → Outcome
  unfolding query_frame
  query_state c query_id namespace object_ids now =
      let payload : StateQueryPayload = record {
        namespace = namespace;
        object_ids = sort_strings object_ids;
      } in
      let frame = query_frame c query_id payload now in
      if not (is_ready c.state) || is_empty c.session_id
      then fail c invalid_state
      else if not (state_sync_enabled c.capabilities)
      then fail c (violation (lit "state-sync capability version 1 was not negotiated"))
      else check c (outbound_ok json c frame) (λ _.
        if has_key query_id c.state_queries
        then fail c (violation (lit "duplicate pending STATE_QUERY id"))
        else done (record c { state_queries = insert query_id payload c.state_queries })
            (send_frame frame ∷ []))

  unfoldable pub send_message_frame : Client → Text → Text → ℕ → Envelope
  unfolding unix_milli
  send_message_frame c message_id content now = record {
    v = wire_version_v2;
    type = send;
    id = message_id;
    session_id = c.session_id;
    seq = 0;
    timestamp = unix_milli now;
    payload = json.encode_send content;
  }

  unfoldable pub enqueue_send : Client → Text → Text → ℕ → Outcome
  unfolding send_message_frame
  enqueue_send c message_id content now =
      let frame = send_message_frame c message_id content now in
      if not (is_ready c.state) || is_empty c.session_id
      then fail c invalid_state
      else if is_empty message_id
          || ltb_ℤ c.config.limits.max_id_length (pos (length message_id))
          || not (json.valid content)
      then fail c (new_protocol_error bad_request (lit "invalid SEND id or content"))
      else if ltb_ℤ c.config.limits.max_payload_size (pos (length content))
      then fail c (new_protocol_error bad_request (lit "SEND content exceeds maximum payload size"))
      else if has_key message_id c.outbox
      then fail c (violation (lit "duplicate local message id"))
      else check c (outbound_ok json c frame) (λ _.
        done (record c { outbox = insert message_id frame c.outbox }) (send_frame frame ∷ []))

  unfoldable pub ping_frame : Client → Text → ℕ → Envelope
  unfolding unix_milli
  ping_frame c ping_id now = record {
    v = wire_version_v2;
    type = ping;
    id = [];
    session_id = c.session_id;
    seq = 0;
    timestamp = unix_milli now;
    payload = json.encode_ping (record { ping_id = ping_id; client_time = unix_milli now });
  }

  unfoldable pub send_ping : Client → ℕ → Text → ℕ → Outcome
  unfolding ping_frame
  send_ping c generation ping_id now =
      let frame = ping_frame c ping_id now in
      if not (nat_beq generation c.generation)
      then fail c stale_connection
      else if not (is_ready c.state) || is_pending c.pending_ping || is_empty ping_id
      then fail c invalid_state
      else check c (outbound_ok json c frame) (λ _.
        done
          (record c {
            pending_ping = some (record { id = ping_id; sent_at = now; generation = generation });
          })
          (send_frame frame ∷ []))
