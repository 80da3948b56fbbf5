-- ===== src/Server/Queries.antt =====
-- server.go: handleStateQuery and PublishStateUpdate.
use kmtproto.Prelude.{
  ℤ, unix_milli, not, true, false, ◌||◌, Text, List, [], ◌∷◌, Option, none, some, sort_strings,
  text_eq, lit, if◌then◌else◌,
}
use kmtproto.Wire.{
  Envelope, state_update, wire_version_v2, StateObject, StateQueryPayload, Json, decode_payload,
  Result, ok, err, Err, plain, StoreError, store_cause, state_snapshot_limit_exceeded,
  invalid_session, protocol_violation, internal, bad_request, new_protocol_error,
}
use kmtproto.State.{
  state_sync_enabled, validate_state_object, SnapshotAccumulator, new_accumulator, add_object,
  snapshot_payload,
}
use kmtproto.Store.{SessionState}
use kmtproto.Server.Types.{Ending, Services, ServerConfig}
use kmtproto.Server.Monad.{M, throw, of_result, read_clock, ◌>>=◌, ◌>>◌}
use kmtproto.Server.Frames.{enqueue_frame, enqueue_error_at}
use kmtproto.Server.Callbacks.{lane_callback, run_stream}
use kmtproto.Server.Contents.{state_snapshot_limits}
use kmtproto.Server.Stored.{wrap}
use kmtproto.Server.Snapshots.{snapshot_frame}

module _ {W : Type 0} (json : Json) (config : ServerConfig) (services : Services W) where
  -- A snapshot that grows too large is the client's mistake, every other failure is the server's.
  abbrev pub over_limit : Envelope → ℤ → Err → Option StoreError → M W (Unit {0})
  over_limit frame timestamp e (some state_snapshot_limit_exceeded) =
      enqueue_error_at json config services frame.session_id frame.id bad_request
        (lit "State snapshot exceeds configured limit; split the query") false timestamp
  over_limit frame timestamp e _ = throw e

  abbrev pub within_limit :
      {A : Type 0} → Envelope → ℤ → Result A → (A → M W (Unit {0})) → M W (Unit {0})
  within_limit frame timestamp (ok a) next = next a
  within_limit frame timestamp (err e) next = over_limit frame timestamp e (store_cause e)

  abbrev pub send_snapshot : Envelope → ℤ → SnapshotAccumulator → M W (Unit {0})
  send_snapshot frame timestamp a =
      within_limit frame timestamp (snapshot_payload json a) (λ payload.
        enqueue_frame json config services
          (record (snapshot_frame frame.session_id frame.id timestamp) { payload = payload }))

  abbrev pub check_object : StateQueryPayload → Text → StateObject → Result (Unit {0})
  check_object query object_id object =
      if not (text_eq object.namespace query.namespace) || not (text_eq object.object_id object_id)
      then err (plain (lit "kmtproto: StateStore returned the wrong object identity"))
      else wrap (lit "kmtproto: StateStore returned invalid State: ")
          (validate_state_object json object config.limits)

  -- The loop over the sorted object ids, and what follows it.
  unfoldable pub query_objects :
      (Text → Text → W → W × Ending (Option StateObject))
      → Envelope
      → ℤ
      → StateQueryPayload
      → SnapshotAccumulator
      → List Text
      → M W (Unit {0})
  unfolding store_cause
  query_objects get frame timestamp query a [] = send_snapshot frame timestamp a
  query_objects get frame timestamp query a (object_id ∷ rest) = do
    found ← lane_callback frame.session_id (get query.namespace object_id)
    elim found [
      | none ↦ query_objects get frame timestamp query a rest
      | some object ↦ (do
        of_result (check_object query object_id object)
        within_limit frame timestamp (add_object json a object)
            (λ a'. query_objects get frame timestamp query a' rest))
    ]

  abbrev pub answer_state_query :
      (Text → Text → W → W × Ending (Option StateObject)) → Envelope → ℤ → M W (Unit {0})
  answer_state_query get frame timestamp = do
    query ← of_result (decode_payload json json.decode_query config.strict frame.payload)
    bounds ←
        of_result
          (state_snapshot_limits json config (snapshot_frame frame.session_id frame.id timestamp))
    a ← of_result (new_accumulator config.limits bounds)
    query_objects get frame timestamp query a (sort_strings query.object_ids)

  abbrev pub refuse_query : Envelope → ℤ → M W (Unit {0})
  refuse_query frame timestamp s =
      enqueue_error_at json config services frame.session_id frame.id protocol_violation
        (lit "STATE_QUERY requires state-sync capability version 1") false timestamp
        (record s { result = record s.result { close = true } })

  abbrev pub forget_session : Envelope → ℤ → M W (Unit {0})
  forget_session frame timestamp s =
      enqueue_error_at json config services frame.session_id frame.id invalid_session
        (lit "session expired or unknown") false timestamp
        (record s { result = record s.result { abandon_session = true } })

  abbrev pub query_session : Envelope → ℤ → Option SessionState → M W (Unit {0})
  query_session frame timestamp none = forget_session frame timestamp
  query_session frame timestamp (some session) =
      if not (state_sync_enabled session.capabilities)
      then refuse_query frame timestamp
      else elim services.get_state [
        | none ↦
            enqueue_error_at json config services frame.session_id frame.id internal
              (lit "State store is unavailable") true timestamp
        | some get ↦ answer_state_query get frame timestamp
      ]

  unfoldable pub handle_state_query : Envelope → M W (Unit {0})
  unfolding query_objects run_stream state_sync_enabled
  handle_state_query frame = do
    now ← read_clock services.now
    run_stream frame.session_id (
        lane_callback frame.session_id (services.lookup_session frame.session_id now)
        >>= query_session frame (unix_milli now))

  abbrev pub update_frame : Text → Text → StateObject → ℤ → Envelope
  update_frame session_id update_id object timestamp = record {
    v = wire_version_v2;
    type = state_update;
    id = update_id;
    session_id = session_id;
    seq = 0;
    timestamp = timestamp;
    payload = json.encode_update object;
  }

  abbrev pub send_update : Text → Text → StateObject → ℤ → Option SessionState → M W (Unit {0})
  send_update session_id update_id object timestamp none =
      throw (new_protocol_error invalid_session (lit "session expired or unknown"))
  send_update session_id update_id object timestamp (some session) =
      if not (state_sync_enabled session.capabilities)
      then throw (
          new_protocol_error protocol_violation
            (lit "STATE_UPDATE requires state-sync capability version 1"))
      else enqueue_frame json config services (update_frame session_id update_id object timestamp)

  unfoldable pub publish_state_update : Text → Text → StateObject → M W (Unit {0})
  unfolding run_stream state_sync_enabled
  publish_state_update session_id update_id object = do
    of_result (validate_state_object json object config.limits)
    now ← read_clock services.now
    run_stream session_id (
        lane_callback session_id (services.lookup_session session_id now)
        >>= send_update session_id update_id object (unix_milli now))
