-- ===== src/Server/Resumes.antt =====
-- server.go: handleResume.
use kmtproto.Prelude.{
  ℕ, ◌+◌, ◌-◌, ◌^◌, ℤ, add_u64, unix_milli, ltb, nat_beq, not, Bool, true, false, ◌||◌, Text, List,
  [], ◌∷◌, ◌++◌, Option, none, some, is_empty, text_eq, lit, if◌then◌else◌,
}
use kmtproto.Wire.{
  FrameType, Envelope, StateObject, event, welcome, wire_version_v2, resumed, ResumePayload, Json,
  Fallible, fails, gives, decode_payload, ok, err, ErrorCode, StoreError, replay_unavailable,
  replay_limit_exceeded, store_cause, invalid_session, unsupported_feature, state_unavailable,
  internal, protocol_violation, sync_required,
}
use kmtproto.State.{state_sync_enabled, StateSnapshotLimits}
use kmtproto.Validate.{validate_outbound_frame}
use kmtproto.Store.{SessionState}
use kmtproto.Server.Types.{Ending, panics, Services, ServerConfig, no_result, closed_result}
use kmtproto.Server.Monad.{M, of_result, rescue, read_clock, perform, set_result, ◌>>=◌, ◌>>◌}
use kmtproto.Server.Frames.{enqueue_error_at, put_batch}
use kmtproto.Server.Callbacks.{lane_callback, run_stream}
use kmtproto.Server.Snapshots.{build_resume_state_snapshot}

abbrev pub is_event : FrameType → Bool
is_event event = true
is_event _ = false

abbrev pub is_some : {A : Type 0} → Option A → Bool
is_some none = false
is_some (some a) = true

module _ {W : Type 0} (json : Json) (config : ServerConfig) (services : Services W) where
  -- The loop over the replayed events, from `expectedSeq` on: where it ends, or the ERROR message.
  unfoldable pub check_events : Text → ℕ → List Envelope → Fallible ℕ
  unfolding text_eq
  check_events session_id expected [] = gives expected
  check_events session_id expected (e ∷ rest) =
      let more = check_events session_id (add_u64 expected 1) rest in
      elim (validate_outbound_frame json e config.limits config.strict) [
        | err x ↦ fails (lit "replay store returned an invalid EVENT")
        | ok u ↦
            if not (is_event e.type)
              || not (text_eq e.session_id session_id)
              || not (nat_beq e.seq expected)
            then fails (lit "replay store returned a non-contiguous event range")
            else more
      ]

  abbrev pub refuse_resume : Envelope → ErrorCode → Text → Bool → ℤ → M W (Unit {0})
  refuse_resume frame code message retryable timestamp =
      enqueue_error_at json config services frame.session_id [] code message retryable timestamp

  -- `result.close = true` before an ERROR
  abbrev pub close_resume : Envelope → ErrorCode → Text → Bool → ℤ → M W (Unit {0})
  close_resume frame code message retryable timestamp s =
      refuse_resume frame code message retryable timestamp
        (record s { result = record s.result { close = true } })

  abbrev pub welcome_back : Envelope → ResumePayload → ℕ → ℤ → Envelope
  welcome_back frame resume replay_to timestamp = record {
    v = wire_version_v2;
    type = welcome;
    id = [];
    session_id = frame.session_id;
    seq = 0;
    timestamp = timestamp;
    payload = json.encode_welcome (record {
      mode = resumed;
      server_time = timestamp;
      resume_from = resume.last_seq + 1;
      replay_to = replay_to;
      state_sync = resume.state_sync;
      accepted_capabilities = [];
    });
  }

  abbrev pub mark_ready : Text → M W (Unit {0})
  mark_ready session_id s =
      (record s { result = record s.result { ready_session_id = session_id } }, Ending.returns tt)

  -- WELCOME, the events and the snapshot in one batch.
  unfoldable pub send_batch :
      Envelope → ResumePayload → ℕ → ℤ → List Envelope → List Envelope → M W (Unit {0})
  send_batch frame resume replay_to timestamp events snapshots =
      let first = welcome_back frame resume replay_to timestamp in
      do
        of_result (validate_outbound_frame json first config.limits config.strict)
        put_batch json config services ((first ∷ events) ++ snapshots)
        mark_ready frame.session_id

  -- Past the checks on the events: the snapshot, if one was asked for. That there is a provider was checked
  -- before.
  unfoldable pub finish_with :
      Envelope
      → ResumePayload
      → Text
      → ℕ
      → ℤ
      → List Envelope
      → Option (List Text)
      → Option (List Text → StateSnapshotLimits → W → W × Ending (List StateObject))
      → M W (Unit {0})
  unfolding send_batch
  finish_with frame resume snapshot_id replay_to timestamp events none provider =
      send_batch frame resume replay_to timestamp events []
  finish_with frame resume snapshot_id replay_to timestamp events (some namespaces) none =
      λ s. (s, panics (lit "nil StateSnapshotProvider"))
  finish_with frame resume snapshot_id replay_to timestamp events (some namespaces) (some call) =
      rescue
        (build_resume_state_snapshot json config call frame.session_id snapshot_id timestamp
          namespaces)
        (λ e.
          close_resume frame state_unavailable (lit "State snapshot could not be produced") true
            timestamp)
        (λ snapshot. send_batch frame resume replay_to timestamp events (snapshot ∷ []))

  abbrev pub finish_resume :
      Envelope → ResumePayload → Text → ℕ → ℤ → List Envelope → M W (Unit {0})
  finish_resume frame resume snapshot_id replay_to timestamp events =
      finish_with frame resume snapshot_id replay_to timestamp events resume.state_sync
        services.snapshot

  abbrev pub replay_failed : Envelope → ℤ → Option StoreError → M W (Unit {0})
  replay_failed frame timestamp (some replay_limit_exceeded) =
      refuse_resume frame sync_required (lit "replay exceeds configured byte limit") false timestamp
  replay_failed frame timestamp (some replay_unavailable) =
      refuse_resume frame sync_required (lit "replay window no longer covers last_seq") false
        timestamp
  replay_failed frame timestamp _ =
      close_resume frame internal (lit "replay could not be produced") true timestamp

  -- After the loop over the events.
  unfoldable pub checked_range :
      Envelope → ResumePayload → Text → ℕ → ℤ → List Envelope → Fallible ℕ → M W (Unit {0})
  unfolding finish_with
  checked_range frame resume snapshot_id replay_to timestamp events (fails message) =
      close_resume frame internal message true timestamp
  checked_range frame resume snapshot_id replay_to timestamp events (gives expected) =
      if not (nat_beq expected (add_u64 replay_to 1))
      then close_resume frame internal (lit "replay store returned an incomplete event range") true
          timestamp
      else finish_resume frame resume snapshot_id replay_to timestamp events

  abbrev pub replay_range : Envelope → ResumePayload → Text → ℕ → ℤ → List Envelope → M W (Unit {0})
  replay_range frame resume snapshot_id replay_to timestamp events =
      checked_range frame resume snapshot_id replay_to timestamp events
        (check_events frame.session_id (add_u64 resume.last_seq 1) events)

  -- The operation in the Session's lane, past the reading of the high-water mark.
  unfoldable pub resume_to : Envelope → ResumePayload → Text → ℤ → ℕ → M W (Unit {0})
  unfolding check_events checked_range store_cause
  resume_to frame resume snapshot_id timestamp replay_to =
      let answer =
        rescue
          (lane_callback frame.session_id (
            services.replay frame.session_id resume.last_seq replay_to (record {
              max_events = config.max_replay_events;
              max_bytes = config.max_replay_bytes;
            })))
          (λ e. replay_failed frame timestamp (store_cause e))
          (replay_range frame resume snapshot_id replay_to timestamp) in
      if ltb replay_to resume.last_seq
      then close_resume frame protocol_violation (lit "last_seq is ahead of server stream") false
          timestamp
      else if nat_beq resume.last_seq (2 ^ 64 - 1)
      then refuse_resume frame sync_required (lit "event sequence is exhausted") false timestamp
      else if ltb config.max_replay_events (replay_to - resume.last_seq)
      then refuse_resume frame sync_required (lit "replay exceeds configured event limit") false
          timestamp
      else answer

  unfoldable pub resume_in_lane : Envelope → ResumePayload → Text → ℤ → M W (Unit {0})
  unfolding resume_to
  resume_in_lane frame resume snapshot_id timestamp =
      rescue (lane_callback frame.session_id (services.current_seq frame.session_id))
        (λ e.
          close_resume frame internal (lit "replay high-water could not be read") true timestamp)
        (resume_to frame resume snapshot_id timestamp)

  unfoldable pub resume_stream : Envelope → ResumePayload → Text → ℤ → M W (Unit {0})
  unfolding resume_in_lane run_stream
  resume_stream frame resume snapshot_id timestamp =
      run_stream frame.session_id (resume_in_lane frame resume snapshot_id timestamp)

  -- The checks on a resume with State, and the identity of its snapshot.
  abbrev pub close_and_refuse : Envelope → ErrorCode → Text → Bool → ℤ → M W (Unit {0})
  close_and_refuse frame code message retryable timestamp =
      set_result closed_result >> refuse_resume frame code message retryable timestamp

  abbrev pub resume_known : Envelope → ResumePayload → SessionState → ℤ → Text → M W (Unit {0})
  resume_known frame resume session timestamp snapshot_id =
      set_result (record no_result { capabilities = session.capabilities })
      >> resume_stream frame resume snapshot_id timestamp

  abbrev pub unnamed_snapshot : Envelope → ℤ → M W (Unit {0})
  unnamed_snapshot frame timestamp =
      close_and_refuse frame state_unavailable (lit "State snapshot identity could not be produced")
        true timestamp

  abbrev pub name_snapshot : Envelope → ResumePayload → SessionState → ℤ → M W (Unit {0})
  name_snapshot frame resume session timestamp =
      rescue (perform services.new_frame_id) (λ e. unnamed_snapshot frame timestamp)
        (λ id.
          if is_empty id
          then unnamed_snapshot frame timestamp
          else resume_known frame resume session timestamp id)

  abbrev pub resume_found : Envelope → ResumePayload → SessionState → ℤ → M W (Unit {0})
  resume_found frame resume session timestamp =
      if not (is_some resume.state_sync)
      then resume_known frame resume session timestamp []
      else if not (state_sync_enabled session.capabilities)
      then close_and_refuse frame unsupported_feature
          (lit "RESUME requires state-sync capability version 1") false timestamp
      else if not (is_some services.snapshot)
      then close_and_refuse frame state_unavailable (lit "State snapshot provider is unavailable")
          true timestamp
      else name_snapshot frame resume session timestamp

  abbrev pub answer_session : Envelope → ResumePayload → ℤ → Option SessionState → M W (Unit {0})
  answer_session frame resume timestamp (some session) = resume_found frame resume session timestamp
  answer_session frame resume timestamp none =
      set_result (record no_result { abandon_session = true })
      >> refuse_resume frame invalid_session (lit "session expired or unknown") false timestamp

  unfoldable pub handle_resume : Envelope → M W (Unit {0})
  unfolding resume_stream state_sync_enabled
  handle_resume frame = do
    now ← read_clock services.now
    resume ← of_result (decode_payload json json.decode_resume config.strict frame.payload)
    session ← perform (services.lookup_session frame.session_id now)
    answer_session frame resume (unix_milli now) session
