-- ===== src/Server/Growth/Resumes.antt =====
-- The batch of handleResume holds valid frames only: the WELCOME, the events that passed the loop, and the
-- snapshot.
use kmtproto.Prelude.{
  List, ℕ, ℤ, Text, Option, none, some, Bool, true, [], ◌∷◌, ◌≡◌, All, add_u64, nat_beq, not, refl,
  ap,
}
use kmtproto.Wire.{
  Envelope, Json, ErrorCode, StoreError, StateObject, ResumePayload, Fallible, fails, gives,
  replay_unavailable, replay_limit_exceeded, sequence_exhausted, state_snapshot_limit_exceeded,
  session_exists, outbound_closed,
}
use kmtproto.State.{StateSnapshotLimits}
use kmtproto.Store.{SessionState}
use kmtproto.Server.Types.{Ending, Services, ServerConfig}
use kmtproto.Server.Snapshots.{build_resume_state_snapshot}
use kmtproto.Server.Effects.{build-seen}
use kmtproto.Server.Resumes.{
  check_events, refuse_resume, close_resume, finish_with, replay_failed, checked_range,
  replay_range, resume_to, resume_in_lane, resume_stream, close_and_refuse, resume_known,
  name_snapshot, resume_found, answer_session, handle_resume,
}
use kmtproto.Server.Keeping.{quiet-Keeps, rescue_with-Keeps, if-Keeps}
use kmtproto.Server.Growth.{IsValid, IsSound, GrownQueue, sound_rules}
use kmtproto.Server.Growth.Snapshots.{build-IsValid, events-IsValid, send_batch-IsSound}

module _ {W : Type 0} (json : Json) (config : ServerConfig) (services : Services W)
    (old : List Envelope) where
  refuse_resume-IsSound :
      (frame : Envelope) (code : ErrorCode) (message : Text) (retryable : Bool) (timestamp : ℤ)
      → IsSound json config services old
          (refuse_resume json config services frame code message retryable timestamp)
  refuse_resume-IsSound frame code message retryable timestamp = search (sound_rules)

  close_resume-IsSound :
      (frame : Envelope) (code : ErrorCode) (message : Text) (retryable : Bool) (timestamp : ℤ)
      → IsSound json config services old
          (close_resume json config services frame code message retryable timestamp)
  close_resume-IsSound frame code message retryable timestamp = record {
    at = λ s h.
        (refuse_resume-IsSound frame code message retryable timestamp).at
          (record s { result = record s.result { close = true } }) h;
  }

  finish_with-IsSound :
      (frame : Envelope) (resume : ResumePayload) (snapshot_id : Text) (replay_to : ℕ)
      (timestamp : ℤ) (events : List Envelope) (wanted : Option (List Text))
      (provider : Option (List Text → StateSnapshotLimits → W → W × Ending (List StateObject)))
      → All (IsValid json config) events
      → IsSound json config services old (
          finish_with json config services frame resume snapshot_id replay_to timestamp events
            wanted provider)
  unfolding finish_with
  finish_with-IsSound frame resume snapshot_id replay_to timestamp events none provider fine =
      send_batch-IsSound json config services old frame resume replay_to timestamp events [] fine tt
  finish_with-IsSound frame resume snapshot_id replay_to timestamp events (some namespaces) none
        fine =
      search sound_rules
  finish_with-IsSound frame resume snapshot_id replay_to timestamp events (some namespaces)
        (some call) fine =
      let build =
        build_resume_state_snapshot json config call frame.session_id snapshot_id timestamp
          namespaces in
      rescue_with-Keeps (GrownQueue json config services old) (IsValid json config) build _ _
        (build-IsValid json config call frame.session_id snapshot_id timestamp namespaces)
        (quiet-Keeps (GrownQueue json config services old) build (λ s.
          ap (λ p. p.0)
            (build-seen json config call frame.session_id snapshot_id timestamp namespaces s)))
        (λ e. close_resume-IsSound frame _ _ true timestamp)
        (λ snapshot good.
          send_batch-IsSound json config services old frame resume replay_to timestamp events
            (snapshot ∷ []) fine (good, tt))

  replay_failed-IsSound :
      (frame : Envelope) (timestamp : ℤ) (cause : Option StoreError)
      → IsSound json config services old (replay_failed json config services frame timestamp cause)
  replay_failed-IsSound frame timestamp none = search (sound_rules, close_resume-IsSound)
  replay_failed-IsSound frame timestamp (some replay_unavailable) = search sound_rules
  replay_failed-IsSound frame timestamp (some replay_limit_exceeded) = search sound_rules
  replay_failed-IsSound frame timestamp (some sequence_exhausted) =
      search (sound_rules, close_resume-IsSound)
  replay_failed-IsSound frame timestamp (some state_snapshot_limit_exceeded) =
      search (sound_rules, close_resume-IsSound)
  replay_failed-IsSound frame timestamp (some session_exists) =
      search (sound_rules, close_resume-IsSound)
  replay_failed-IsSound frame timestamp (some outbound_closed) =
      search (sound_rules, close_resume-IsSound)

  checked_range-IsSound :
      (frame : Envelope) (resume : ResumePayload) (snapshot_id : Text) (replay_to : ℕ)
      (timestamp : ℤ) (events : List Envelope) (checked : Fallible ℕ)
      → ((n : ℕ) → checked ≡ gives n → All (IsValid json config) events)
      → IsSound json config services old (
          checked_range json config services frame resume snapshot_id replay_to timestamp events
            checked)
  unfolding checked_range
  checked_range-IsSound frame resume snapshot_id replay_to timestamp events (fails message) fine =
      close_resume-IsSound frame _ _ true timestamp
  checked_range-IsSound frame resume snapshot_id replay_to timestamp events (gives expected) fine =
      if-Keeps (GrownQueue json config services old) (not (nat_beq expected (add_u64 replay_to 1)))
        _ _ (λ e. close_resume-IsSound frame _ _ true timestamp)
        (λ e.
          finish_with-IsSound frame resume snapshot_id replay_to timestamp events resume.state_sync
            services.snapshot (fine expected refl))

  replay_range-IsSound :
      (frame : Envelope) (resume : ResumePayload) (snapshot_id : Text) (replay_to : ℕ)
      (timestamp : ℤ) (events : List Envelope)
      → IsSound json config services old
          (replay_range json config services frame resume snapshot_id replay_to timestamp events)
  replay_range-IsSound frame resume snapshot_id replay_to timestamp events =
      let checked =
        check_events json config services frame.session_id (add_u64 resume.last_seq 1) events in
      checked_range-IsSound frame resume snapshot_id replay_to timestamp events checked (λ n.
        events-IsValid json config services old frame.session_id (add_u64 resume.last_seq 1) n
          events)

  resume_to-IsSound :
      (frame : Envelope) (resume : ResumePayload) (snapshot_id : Text) (timestamp : ℤ)
      (replay_to : ℕ)
      → IsSound json config services old
          (resume_to json config services frame resume snapshot_id timestamp replay_to)
  unfolding resume_to
  resume_to-IsSound frame resume snapshot_id timestamp replay_to =
      search (sound_rules, close_resume-IsSound, replay_failed-IsSound, replay_range-IsSound) depth
        8

  resume_in_lane-IsSound :
      (frame : Envelope) (resume : ResumePayload) (snapshot_id : Text) (timestamp : ℤ)
      → IsSound json config services old
          (resume_in_lane json config services frame resume snapshot_id timestamp)
  unfolding resume_in_lane
  resume_in_lane-IsSound frame resume snapshot_id timestamp =
      search (sound_rules, close_resume-IsSound, resume_to-IsSound)

  resume_stream-IsSound :
      (frame : Envelope) (resume : ResumePayload) (snapshot_id : Text) (timestamp : ℤ)
      → IsSound json config services old
          (resume_stream json config services frame resume snapshot_id timestamp)
  unfolding resume_stream
  resume_stream-IsSound frame resume snapshot_id timestamp =
      search (sound_rules, resume_in_lane-IsSound)

  resume_known-IsSound :
      (frame : Envelope) (resume : ResumePayload) (session : SessionState) (timestamp : ℤ)
      (snapshot_id : Text)
      → IsSound json config services old
          (resume_known json config services frame resume session timestamp snapshot_id)
  resume_known-IsSound frame resume session timestamp snapshot_id =
      search (sound_rules, resume_stream-IsSound)

  close_and_refuse-IsSound :
      (frame : Envelope) (code : ErrorCode) (message : Text) (retryable : Bool) (timestamp : ℤ)
      → IsSound json config services old
          (close_and_refuse json config services frame code message retryable timestamp)
  close_and_refuse-IsSound frame code message retryable timestamp = search sound_rules

  name_snapshot-IsSound :
      (frame : Envelope) (resume : ResumePayload) (session : SessionState) (timestamp : ℤ)
      → IsSound json config services old
          (name_snapshot json config services frame resume session timestamp)
  name_snapshot-IsSound frame resume session timestamp =
      search (sound_rules, close_and_refuse-IsSound, resume_known-IsSound)

  resume_found-IsSound :
      (frame : Envelope) (resume : ResumePayload) (session : SessionState) (timestamp : ℤ)
      → IsSound json config services old
          (resume_found json config services frame resume session timestamp)
  resume_found-IsSound frame resume session timestamp =
      search (sound_rules, close_and_refuse-IsSound, resume_known-IsSound, name_snapshot-IsSound)
        depth 8

  answer_session-IsSound :
      (frame : Envelope) (resume : ResumePayload) (timestamp : ℤ) (found : Option SessionState)
      → IsSound json config services old
          (answer_session json config services frame resume timestamp found)
  answer_session-IsSound frame resume timestamp (some session) =
      search (sound_rules, resume_found-IsSound)
  answer_session-IsSound frame resume timestamp none = search sound_rules

  pub handle_resume-IsSound :
      (frame : Envelope)
      → IsSound json config services old (handle_resume json config services frame)
  unfolding handle_resume
  handle_resume-IsSound frame = search (sound_rules, answer_session-IsSound) depth 7
