-- ===== src/Server/Growth/Queries.antt =====
-- handleStateQuery, PublishStateUpdate and PublishEvent enqueue valid frames only.
use kmtproto.Prelude.{not, lit, List, ℤ, Text, Option, none, some, true, [], ◌∷◌}
use kmtproto.Wire.{
  internal, Envelope, Json, Result, ok, err, Err, StoreError, StateObject, StateQueryPayload,
  EventPayload, replay_unavailable, replay_limit_exceeded, sequence_exhausted,
  state_snapshot_limit_exceeded, session_exists, outbound_closed, store_cause,
}
use kmtproto.State.{state_sync_enabled, SnapshotAccumulator}
use kmtproto.Store.{SessionState}
use kmtproto.Server.Types.{Ending, Services, ServerConfig}
use kmtproto.Server.Monad.{M}
use kmtproto.Server.Queries.{
  over_limit, within_limit, send_snapshot, query_objects, answer_state_query, refuse_query,
  forget_session, query_session, handle_state_query, send_update, publish_state_update,
}
use kmtproto.Server.Publishing.{send_event, append_event, publish_event}
use kmtproto.Server.Frames.{enqueue_error_at}
use kmtproto.Server.Keeping.{bind-Keeps, if-Keeps, option-Keeps}
use kmtproto.Server.Callbacks.{lane_callback}
use kmtproto.Server.Growth.{IsSound, GrownQueue, enqueue_error_at-IsSound, sound_rules}

module _ {W : Type 0} (json : Json) (config : ServerConfig) (services : Services W)
    (old : List Envelope) where
  over_limit-IsSound :
      (frame : Envelope) (timestamp : ℤ) (e : Err) (cause : Option StoreError)
      → IsSound json config services old (over_limit json config services frame timestamp e cause)
  over_limit-IsSound frame timestamp e none = search (sound_rules)
  over_limit-IsSound frame timestamp e (some replay_unavailable) = search (sound_rules)
  over_limit-IsSound frame timestamp e (some replay_limit_exceeded) = search (sound_rules)
  over_limit-IsSound frame timestamp e (some sequence_exhausted) = search (sound_rules)
  over_limit-IsSound frame timestamp e (some state_snapshot_limit_exceeded) = search (sound_rules)
  over_limit-IsSound frame timestamp e (some session_exists) = search (sound_rules)
  over_limit-IsSound frame timestamp e (some outbound_closed) = search (sound_rules)

  within_limit-IsSound :
      {B : Type 0} (frame : Envelope) (timestamp : ℤ) (r : Result B) (next : B → M W (Unit {0}))
      → ((b : B) → IsSound json config services old (next b))
      → IsSound json config services old (within_limit json config services frame timestamp r next)
  within_limit-IsSound frame timestamp (ok a) next kept = kept a
  within_limit-IsSound frame timestamp (err e) next kept =
      over_limit-IsSound frame timestamp e (store_cause e)

  send_snapshot-IsSound :
      (frame : Envelope) (timestamp : ℤ) (a : SnapshotAccumulator)
      → IsSound json config services old (send_snapshot json config services frame timestamp a)
  send_snapshot-IsSound frame timestamp a = search (sound_rules, within_limit-IsSound)

  query_objects-IsSound :
      (get : Text → Text → W → W × Ending (Option StateObject)) (frame : Envelope) (timestamp : ℤ)
      (query : StateQueryPayload) (a : SnapshotAccumulator) (ids : List Text)
      → IsSound json config services old
          (query_objects json config services get frame timestamp query a ids)
  unfolding query_objects
  query_objects-IsSound get frame timestamp query a [] = send_snapshot-IsSound frame timestamp a
  query_objects-IsSound get frame timestamp query a (object_id ∷ rest) =
      let ih =
        (λ (b : SnapshotAccumulator). query_objects-IsSound get frame timestamp query b rest) in
      bind-Keeps (GrownQueue json config services old)
        (lane_callback frame.session_id (get query.namespace object_id)) _ (search sound_rules)
        (λ found.
          option-Keeps (GrownQueue json config services old) found _ _ (ih a)
            (λ object. search (sound_rules, within_limit-IsSound, ih)))

  answer_state_query-IsSound :
      (get : Text → Text → W → W × Ending (Option StateObject)) (frame : Envelope) (timestamp : ℤ)
      → IsSound json config services old
          (answer_state_query json config services get frame timestamp)
  answer_state_query-IsSound get frame timestamp = search (sound_rules, query_objects-IsSound)

  refuse_query-IsSound :
      (frame : Envelope) (timestamp : ℤ)
      → IsSound json config services old (refuse_query json config services frame timestamp)
  refuse_query-IsSound frame timestamp = record {
    at = λ s h.
        (enqueue_error_at-IsSound json config services old _ _ _ _ _ timestamp).at
          (record s { result = record s.result { close = true } }) h;
  }

  forget_session-IsSound :
      (frame : Envelope) (timestamp : ℤ)
      → IsSound json config services old (forget_session json config services frame timestamp)
  forget_session-IsSound frame timestamp = record {
    at = λ s h.
        (enqueue_error_at-IsSound json config services old _ _ _ _ _ timestamp).at
          (record s { result = record s.result { abandon_session = true } }) h;
  }

  from_store-IsSound :
      (frame : Envelope) (timestamp : ℤ)
      (store : Option (Text → Text → W → W × Ending (Option StateObject)))
      → IsSound json config services old (elim store [
        | none ↦
            enqueue_error_at json config services frame.session_id frame.id internal
              (lit "State store is unavailable")
              true
              timestamp
        | some get ↦ answer_state_query json config services get frame timestamp
      ])
  from_store-IsSound frame timestamp none = search sound_rules
  from_store-IsSound frame timestamp (some get) = answer_state_query-IsSound get frame timestamp

  query_session-IsSound :
      (frame : Envelope) (timestamp : ℤ) (found : Option SessionState)
      → IsSound json config services old (query_session json config services frame timestamp found)
  query_session-IsSound frame timestamp none = forget_session-IsSound frame timestamp
  query_session-IsSound frame timestamp (some session) =
      if-Keeps (GrownQueue json config services old) (not (state_sync_enabled session.capabilities))
        _ _ (λ e. refuse_query-IsSound frame timestamp)
        (λ e. from_store-IsSound frame timestamp services.get_state)

  pub handle_state_query-IsSound :
      (frame : Envelope)
      → IsSound json config services old (handle_state_query json config services frame)
  unfolding handle_state_query
  handle_state_query-IsSound frame = search (sound_rules, query_session-IsSound)

  send_update-IsSound :
      (session_id update_id : Text) (object : StateObject) (timestamp : ℤ)
      (found : Option SessionState)
      → IsSound json config services old
          (send_update json config services session_id update_id object timestamp found)
  send_update-IsSound session_id update_id object timestamp none = search (sound_rules)
  send_update-IsSound session_id update_id object timestamp (some session) = search (sound_rules)

  pub publish_state_update-IsSound :
      (session_id update_id : Text) (object : StateObject)
      → IsSound json config services old
          (publish_state_update json config services session_id update_id object)
  unfolding publish_state_update
  publish_state_update-IsSound session_id update_id object =
      search (sound_rules, send_update-IsSound)

  send_event-IsSound :
      (session_id event_id : Text) (wanted : EventPayload) (frame : Envelope)
      → IsSound json config services old
          (send_event json config services session_id event_id wanted frame)
  send_event-IsSound session_id event_id wanted frame = search (sound_rules)

  append_event-IsSound :
      (session_id event_id : Text) (payload : EventPayload) (timestamp : ℤ)
      (found : Option SessionState)
      → IsSound json config services old
          (append_event json config services session_id event_id payload timestamp found)
  append_event-IsSound session_id event_id payload timestamp none = search sound_rules
  append_event-IsSound session_id event_id payload timestamp (some session) =
      search (sound_rules, send_event-IsSound)

  pub publish_event-IsSound :
      (session_id event_id : Text) (payload : EventPayload)
      → IsSound json config services old
          (publish_event json config services session_id event_id payload)
  unfolding publish_event
  publish_event-IsSound session_id event_id payload =
      search (sound_rules, append_event-IsSound) depth 7
