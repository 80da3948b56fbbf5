-- ===== src/Client/Caching.antt =====
-- client.go: applyStateObjectsLocked and the State frames.
use kmtproto.Prelude.{
  ◌+◌, ℤ, pos, ◌+ℤ◌, ◌-ℤ◌, ltb_ℤ, Bool, true, false, not, ◌||◌, Text, List, [], ◌∷◌, ◌++◌, Option,
  none, some, is_empty, length, lit, Map, lookup, insert, delete, contains, text_eq, text_instance,
  if◌then◌else◌,
}
use kmtproto.Wire.{
  Envelope, Json, decode_payload, StateObject, StateIdentity, identity_instance, StateQueryPayload,
  ready, Result, ok, err, Err, state, state_stale, state_conflict, invalid_state_version,
  sync_required, invalid_state, new_protocol_error, new_protocol_error_with_cause,
}
use kmtproto.State.{
  state_sync_enabled, identity, apply_state_object, ApplyOutcome, StateApplyResult, duplicate,
}
use kmtproto.Client.Types.{
  ClientConfig, Client, Action, state_changed, session_ready, Outcome, done, fail, check, is_ready,
  is_resuming,
}
use kmtproto.Client.Recovery.{
  reset_connection_transient, stop_state_resume, stopped, deliver_all, state_object_bytes,
}
use kmtproto.Client.Connect.{violation}

-- `next`, `nextBytes` and `actions` of the loop.
pub record Staged : Type 0 where
  pub objects : Map StateIdentity StateObject
  pub bytes : ℤ
  pub actions : List Action

-- `errors.Is` on the two version errors.
unfoldable pub apply_error : Err → Err
apply_error (state state_stale) =
    new_protocol_error_with_cause invalid_state_version
      (lit "State version is stale or conflicting") state_stale
apply_error (state state_conflict) =
    new_protocol_error_with_cause invalid_state_version
      (lit "State version is stale or conflicting") state_conflict
apply_error e = e

abbrev pub is_duplicate : StateApplyResult → Bool
is_duplicate duplicate = true
is_duplicate _ = false

abbrev is_new_object : Option StateObject → Bool
is_new_object none = true
is_new_object (some o) = false

unfoldable pub bytes_after : ℤ → Option StateObject → StateObject → ℤ
unfolding state_object_bytes
bytes_after bytes current committed =
    elim current [ none ↦ bytes | some old ↦ bytes -ℤ pos (state_object_bytes old) ]
    +ℤ pos (state_object_bytes committed)

-- The part of a round after the merge succeeded.
unfoldable pub stage_committed :
    ClientConfig → Staged → Option StateObject → StateIdentity → ApplyOutcome → Result Staged
unfolding bytes_after insert
stage_committed config staged current key outcome =
    let bytes = bytes_after staged.bytes current outcome.committed in
    if is_duplicate outcome.result
    then ok staged
    else if elim current [
      | none ↦ ltb_ℤ config.max_state_objects (pos (length staged.objects + 1))
      | some old ↦ false
    ]
    then err (new_protocol_error sync_required (lit "State cache exceeds configured object limit"))
    else if ltb_ℤ config.max_state_bytes bytes
    then err (new_protocol_error sync_required (lit "State cache exceeds configured byte limit"))
    else ok (record {
      objects = insert key outcome.committed staged.objects;
      bytes = bytes;
      actions = staged.actions ++ state_changed outcome.committed outcome.result ∷ [];
    })

module _ (json : Json) where
  unfoldable pub stage_one : ClientConfig → Staged → StateObject → Result Staged
  unfolding stage_committed apply_error
  stage_one config staged incoming =
      let key = identity incoming in
      let current = lookup key staged.objects in
      let outcome = apply_state_object json current incoming config.limits in
      elim outcome.error [
        | some e ↦ err (apply_error e)
        | none ↦ stage_committed config staged current key outcome
      ]

  unfoldable pub stage_all : ClientConfig → Staged → List StateObject → Result Staged
  unfolding stage_one
  stage_all config staged [] = ok staged
  stage_all config staged (incoming ∷ rest) = elim (stage_one config staged incoming) [
    | err e ↦ err e
    | ok next ↦ stage_all config next rest
  ]

  -- Nothing of the batch is stored unless all of it is.
  unfoldable pub apply_state_objects : Client → List StateObject → Outcome
  unfolding stage_all
  apply_state_objects c objects =
      check c
        (stage_all c.config
          (record { objects = c.state_objects; bytes = c.state_bytes; actions = [] }) objects)
        (λ staged.
          done (record c { state_objects = staged.objects; state_bytes = staged.bytes })
            staged.actions)

  unfoldable pub handle_state_update : Client → Envelope → Outcome
  unfolding apply_state_objects
  handle_state_update c frame =
      if not (is_ready c.state)
      then fail c invalid_state
      else if not (state_sync_enabled c.capabilities)
      then fail c (violation (lit "STATE_UPDATE requires state-sync capability version 1"))
      else check c (decode_payload json json.decode_update c.config.strict_validation frame.payload)
          (λ object. apply_state_objects c (object ∷ []))

  -- The first object that the query did not ask for.
  unfoldable pub check_requested : StateQueryPayload → List StateObject → Result (Unit {0})
  unfolding contains
  check_requested query [] = ok tt
  check_requested query (object ∷ rest) =
      if not (text_eq object.namespace query.namespace)
      then err (violation (lit "STATE_SNAPSHOT returned another namespace"))
      else if not (contains object.object_id query.object_ids)
      then err (violation (lit "STATE_SNAPSHOT returned an unrequested object"))
      else check_requested query rest

  -- The answered query is forgotten.
  unfoldable pub store_answer : Client → Text → List StateObject → Outcome
  unfolding apply_state_objects delete
  store_answer c query_id states =
      let (c', result) = apply_state_objects c states in
      check c' result
        λ actions. done (record c' { state_queries = delete query_id c'.state_queries }) actions

  unfoldable pub answer_query : Client → Envelope → StateQueryPayload → Outcome
  unfolding check_requested store_answer
  answer_query c frame query =
      check c (decode_payload json json.decode_snapshot c.config.strict_validation frame.payload)
        λ states. check c (check_requested query states) λ _. store_answer c frame.id states

  unfoldable pub check_namespaces_allowed : List Text → List StateObject → Result (Unit {0})
  unfolding contains
  check_namespaces_allowed allowed [] = ok tt
  check_namespaces_allowed allowed (object ∷ rest) =
      if not (contains object.namespace allowed)
      then err (violation (lit "resume STATE_SNAPSHOT returned an unrequested namespace"))
      else check_namespaces_allowed allowed rest

  -- The last step of a resume with State: deliver the replay, then publish the State, then READY.
  unfoldable pub finish_state_resume : Client → List Action → Outcome
  unfolding deliver_all reset_connection_transient
  finish_state_resume c state_actions =
      let (delivered, actions) = deliver_all c c.replay_buffer in
      done (record (reset_connection_transient delivered) { state = ready })
        (actions ++ (state_actions ++ session_ready c.session_id ∷ []))

  unfoldable pub store_resumed : Client → List StateObject → Outcome
  unfolding apply_state_objects finish_state_resume stop_state_resume
  store_resumed c states =
      let (c', result) = apply_state_objects c states in
      elim result [
        | err e ↦
            stopped (stop_state_resume c' (lit "State snapshot conflicts with retained State"))
        | ok actions ↦ finish_state_resume c' actions
      ]

  unfoldable pub handle_resume_state_snapshot : Client → Envelope → Outcome
  unfolding check_namespaces_allowed store_resumed
  handle_resume_state_snapshot c frame =
      if not (state_sync_enabled c.capabilities) || is_empty c.resume_state_namespaces
      then fail c (violation (lit "unexpected resume STATE_SNAPSHOT"))
      else if not c.resume_events_complete
      then fail c (violation (lit "resume STATE_SNAPSHOT arrived before EVENT replay completed"))
      else check c
          (decode_payload json json.decode_snapshot c.config.strict_validation frame.payload)
          λ states.
            check c (check_namespaces_allowed c.resume_state_namespaces states)
              λ _. store_resumed c states

  unfoldable pub handle_state_snapshot : Client → Envelope → Outcome
  unfolding handle_resume_state_snapshot answer_query
  handle_state_snapshot c frame =
      if is_resuming c.state
      then handle_resume_state_snapshot c frame
      else if not (is_ready c.state)
      then fail c invalid_state
      else if not (state_sync_enabled c.capabilities)
      then fail c (violation (lit "STATE_SNAPSHOT requires state-sync capability version 1"))
      else elim (lookup frame.id c.state_queries) [
        | none ↦ fail c (violation (lit "STATE_SNAPSHOT does not match a pending query"))
        | some query ↦ answer_query c frame query
      ]
