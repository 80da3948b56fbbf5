-- ===== src/Server/Contents.antt =====
-- server.go: what goes into a State snapshot: its bounds, the checks on the states, their order and the frame.
use kmtproto.Prelude.{
  pos, ◌-ℤ◌, ltb_ℤ, leb_ℤ, not, Bool, Text, List, [], ◌∷◌, length, contains, insertion_sort,
  text_eq, text_lt, text_instance, lit, if◌then◌else◌,
}
use kmtproto.Wire.{
  Envelope, StateObject, StateIdentity, identity_instance, Json, fails, gives, Result, ok, err,
  plain, store, state_snapshot_limit_exceeded, refuse_if, ◌>>=◌, ◌>>◌,
}
use kmtproto.State.{
  identity, validate_state_object, StateSnapshotLimits, min_int, new_accumulator, add_objects,
  snapshot_payload,
}
use kmtproto.Validate.{validate_outbound_frame}
use kmtproto.Server.Types.{ServerConfig}

-- `{}`
abbrev empty_object : Text
empty_object = 0x7b ∷ 0x7d ∷ []

abbrev object_before : StateObject → StateObject → Bool
object_before a b =
    if not (text_eq a.namespace b.namespace)
    then text_lt a.namespace b.namespace
    else text_lt a.object_id b.object_id

-- `sort.Slice` by namespace and object id; the identities differ, so any sorting algorithm gives this list.
unfoldable pub by_identity : List StateObject → List StateObject
unfolding insertion_sort text_eq text_lt
by_identity = insertion_sort object_before

module _ (json : Json) (config : ServerConfig) where
  unfoldable pub state_snapshot_limits : Envelope → Result StateSnapshotLimits
  state_snapshot_limits frame =
      let probe = record frame { payload = empty_object } in
      elim (json.encode_envelope probe) [
        | fails message ↦ err (plain message)
        | gives encoded ↦
            let l = config.limits in
            let overhead = pos (length encoded) -ℤ pos 2 in
            let max_bytes =
              min_int (min_int l.max_state_snapshot_bytes l.max_payload_size)
                (l.max_frame_size -ℤ overhead) in
            if leb_ℤ max_bytes (pos 0)
            then err (store state_snapshot_limit_exceeded)
            else ok (record { max_objects = l.max_state_snapshot_objects; max_bytes = max_bytes })
      ]

  -- The loop over the states that the provider returned.
  unfoldable pub check_snapshot_states :
      List Text → List StateIdentity → List StateObject → Result (Unit {0})
  unfolding contains
  check_snapshot_states allowed seen [] = ok tt
  check_snapshot_states allowed seen (object ∷ rest) =
      let more = check_snapshot_states allowed (identity object ∷ seen) rest in
      elim (validate_state_object json object config.limits) [
        | err e ↦ err e
        | ok u ↦
            if not (contains object.namespace allowed)
            then err (plain (lit "kmtproto: State snapshot returned an unrequested namespace"))
            else if contains (identity object) seen
            then err (plain (lit "kmtproto: State snapshot returned a duplicate identity"))
            else more
      ]

  abbrev pub checked_snapshot : Envelope → Result Envelope
  checked_snapshot snapshot = (do
    validate_outbound_frame json snapshot config.limits config.strict
    ok snapshot)

  -- From the states to the finished frame.
  unfoldable pub snapshot_of : Envelope → StateSnapshotLimits → List StateObject → Result Envelope
  unfolding by_identity new_accumulator add_objects snapshot_payload
  snapshot_of frame bounds states = do
    a ← new_accumulator config.limits bounds
    full ← add_objects json a (by_identity states)
    payload ← snapshot_payload json full
    checked_snapshot (record frame { payload = payload })

  -- What becomes of the states that the provider returned.
  unfoldable pub resume_snapshot :
      Envelope → StateSnapshotLimits → List Text → List StateObject → Result Envelope
  unfolding check_snapshot_states snapshot_of
  resume_snapshot frame bounds namespaces states = do
    refuse_if (ltb_ℤ bounds.max_objects (pos (length states))) (store state_snapshot_limit_exceeded)
    check_snapshot_states namespaces [] states
    snapshot_of frame bounds states
