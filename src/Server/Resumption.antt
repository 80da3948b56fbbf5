-- ===== src/Server/Resumption.antt =====
-- handleResume, inside the Session's lane: the invariant `Answers` at every end.
use kmtproto.Prelude.{
  ℕ, ℤ, ◌-◌, ◌^◌, ◌<◌, add_u64, nat_beq, not, ltb, ◌≡◌, refl, ap, ◌∙◌, Bool, true, false, Text,
  List, [], Option, none, some, length, lit, arith,
}
use kmtproto.Wire.{
  Envelope, Json, ErrorCode, internal, protocol_violation, sync_required, ResumePayload, StoreError,
  replay_unavailable, replay_limit_exceeded, sequence_exhausted, state_snapshot_limit_exceeded,
  session_exists, outbound_closed, store_cause, Fallible, fails, gives, decode_payload, ok,
}
use kmtproto.Store.{SessionState, ReplayLimits}
use kmtproto.Outbound.{OutboundQueue}
use kmtproto.Server.Types.{returns, Services, ServerConfig, ServerState, no_result, closed_result}
use kmtproto.Server.Monad.{M}
use kmtproto.Server.Callbacks.{lane_callback}
use kmtproto.Server.Resumes.{
  check_events, close_resume, replay_failed, checked_range, replay_range, resume_to, resume_in_lane,
  resume_stream, resume_known, close_and_refuse,
}
use kmtproto.Server.Effects.{
  seen, after_rescue, after_if, lane_callback-seen, lane_callback-out, lane_callback-run,
  run_stream-seen,
}
use kmtproto.Server.StateFrames.{Named}
use kmtproto.Server.Served.{replay_call, IsServed, range-IsServed}
use kmtproto.Server.Batches.{
  Answers, idle-Answers, refused-Answers, closed-Answers, finish_with-Answers,
}

-- The sequences that the collaborators and the decoder hand over are uint64, and a replay fits into memory.
pub record IsUint64 {W : Type 0} (json : Json) (services : Services W) : Type 0 where
  pub asks :
      (strict : Bool) (raw : Text) (p : ResumePayload)
      → decode_payload json json.decode_resume strict raw ≡ ok p
      → p.last_seq < 2 ^ 64
  pub reads :
      (session_id : Text) (w : W) (n : ℕ)
      → (services.current_seq session_id w).1 ≡ returns n
      → n < 2 ^ 64
  pub fits :
      (session_id : Text) (after through : ℕ) (limits : ReplayLimits) (w : W)
      (events : List Envelope)
      → (services.replay session_id after through limits w).1 ≡ returns events
      → length events < 2 ^ 64

module _ {W : Type 0} (json : Json) (config : ServerConfig) (services : Services W)
    (frame : Envelope) (old : OutboundQueue) where
  checked_range-Answers :
      (request : ResumePayload) (snapshot_id : Text) (replay_to : ℕ) (timestamp : ℤ)
      (events : List Envelope) (checked : Fallible ℕ) (s : ServerState W)
      → Named json config services request.state_sync snapshot_id
      → (checked ≡ gives (add_u64 replay_to 1)
          → IsServed json config services frame request replay_to events)
      → seen s ≡ (old, [])
      → Answers json config services frame old (
          seen
            (checked_range json config services frame request snapshot_id replay_to timestamp events
              checked s).0)
  unfolding checked_range
  checked_range-Answers request snapshot_id replay_to timestamp events (fails message) s own served
        start =
      closed-Answers json config services frame old internal message true timestamp s
        (ap (λ p. p.1) start)
  checked_range-Answers request snapshot_id replay_to timestamp events (gives expected) s own served
        start =
      after_if (Answers json config services frame old)
        (not (nat_beq expected (add_u64 replay_to 1))) _ _ s
        (λ e.
          closed-Answers json config services frame old internal _ true timestamp s
            (ap (λ p. p.1) start))
        (λ e.
          finish_with-Answers json config services frame old request snapshot_id replay_to timestamp
            events request.state_sync services.snapshot s refl refl own
            (served (ap gives (ground arith))) start)

  replay_failed-Answers :
      (timestamp : ℤ) (cause : Option StoreError) (s : ServerState W)
      → s.result.ready_session_id ≡ []
      → Answers json config services frame old
          (seen (replay_failed json config services frame timestamp cause s).0)
  replay_failed-Answers timestamp none s e =
      closed-Answers json config services frame old internal _ true timestamp s e
  replay_failed-Answers timestamp (some replay_limit_exceeded) s e =
      refused-Answers json config services frame old sync_required _ false timestamp s e
  replay_failed-Answers timestamp (some replay_unavailable) s e =
      refused-Answers json config services frame old sync_required _ false timestamp s e
  replay_failed-Answers timestamp (some sequence_exhausted) s e =
      closed-Answers json config services frame old internal _ true timestamp s e
  replay_failed-Answers timestamp (some state_snapshot_limit_exceeded) s e =
      closed-Answers json config services frame old internal _ true timestamp s e
  replay_failed-Answers timestamp (some session_exists) s e =
      closed-Answers json config services frame old internal _ true timestamp s e
  replay_failed-Answers timestamp (some outbound_closed) s e =
      closed-Answers json config services frame old internal _ true timestamp s e

  resume_to-Answers :
      (request : ResumePayload) (snapshot_id : Text) (timestamp : ℤ) (replay_to : ℕ)
      (counter_world : W) (s : ServerState W)
      → IsUint64 json services
      → services.current_seq frame.session_id counter_world ≡ (s.world, returns replay_to)
      → Named json config services request.state_sync snapshot_id
      → decode_payload json json.decode_resume config.strict frame.payload ≡ ok request
      → replay_to < 2 ^ 64
      → seen s ≡ (old, [])
      → Answers json config services frame old
          (seen (resume_to json config services frame request snapshot_id timestamp replay_to s).0)
  unfolding resume_to
  resume_to-Answers request snapshot_id timestamp replay_to counter_world s words counted own asked
        near start =
      let P = Answers json config services frame old in
      let e0 : s.result.ready_session_id ≡ [] = ap (λ p. p.1) start in
      let call =
        lane_callback frame.session_id (replay_call json config services frame request replay_to) in
      let begun =
        lane_callback-seen frame.session_id
          (replay_call json config services frame request replay_to) s
        ∙ start in
      after_if P (ltb replay_to request.last_seq) _ _ s
        (λ e.
          closed-Answers json config services frame old protocol_violation _ false timestamp s e0)
        (λ ahead.
          after_if P (nat_beq request.last_seq (2 ^ 64 - 1)) _ _ s
            (λ e.
              refused-Answers json config services frame old sync_required _ false timestamp s e0)
            (λ room.
              after_if P (ltb config.max_replay_events (replay_to - request.last_seq)) _ _ s
                (λ e.
                  refused-Answers json config services frame old sync_required _ false timestamp s
                    e0)
                (λ few.
                  after_rescue P call
                    (λ e. replay_failed json config services frame timestamp (store_cause e))
                    (replay_range json config services frame request snapshot_id replay_to
                      timestamp)
                    s
                    (λ events e.
                      let low : request.last_seq < 2 ^ 64 - 1 =
                        (let w = words.asks config.strict frame.payload request asked in
                          ground arith) in
                      let replayed =
                        (lane_callback-out frame.session_id
                          (replay_call json config services frame request replay_to) events s e) in
                      let fits = words.fits _ _ _ _ _ events replayed in
                      checked_range-Answers request snapshot_id replay_to timestamp events
                        (check_events json config services frame.session_id
                          (add_u64 request.last_seq 1) events)
                        (call s).0 own
                        (range-IsServed json config services frame request replay_to events
                          counter_world s.world counted replayed asked low (ground arith) near
                          (ground arith) fits)
                        begun)
                    (λ e.
                      replay_failed-Answers timestamp (store_cause e) (call s).0
                        (ap (λ p. p.1) begun))
                    (idle-Answers json config services frame old (call s).0
                      (ap (λ p. p.1) begun)))))

  resume_in_lane-Answers :
      (request : ResumePayload) (snapshot_id : Text) (timestamp : ℤ) (s : ServerState W)
      → IsUint64 json services
      → Named json config services request.state_sync snapshot_id
      → decode_payload json json.decode_resume config.strict frame.payload ≡ ok request
      → seen s ≡ (old, [])
      → Answers json config services frame old
          (seen (resume_in_lane json config services frame request snapshot_id timestamp s).0)
  unfolding resume_in_lane
  resume_in_lane-Answers request snapshot_id timestamp s words own asked start =
      let call = services.current_seq frame.session_id in
      let m : M W ℕ = lane_callback frame.session_id call in
      let begun = lane_callback-seen frame.session_id call s ∙ start in
      after_rescue (Answers json config services frame old) m
        (λ e.
          close_resume json config services frame internal
            (lit "replay high-water could not be read") true timestamp)
        (resume_to json config services frame request snapshot_id timestamp) s
        (λ replay_to e.
          resume_to-Answers request snapshot_id timestamp replay_to s.world (m s).0 words
            (lane_callback-run frame.session_id call replay_to s e) own asked
            (words.reads frame.session_id s.world replay_to
              (lane_callback-out frame.session_id call replay_to s e))
            begun)
        (λ e.
          closed-Answers json config services frame old internal _ true timestamp (m s).0
            (ap (λ p. p.1) begun))
        (idle-Answers json config services frame old (m s).0 (ap (λ p. p.1) begun))

  resume_stream-Answers :
      (request : ResumePayload) (snapshot_id : Text) (timestamp : ℤ) (s : ServerState W)
      → IsUint64 json services
      → Named json config services request.state_sync snapshot_id
      → decode_payload json json.decode_resume config.strict frame.payload ≡ ok request
      → seen s ≡ (old, [])
      → Answers json config services frame old
          (seen (resume_stream json config services frame request snapshot_id timestamp s).0)
  unfolding resume_stream
  resume_stream-Answers request snapshot_id timestamp s words own asked start =
      run_stream-seen (Answers json config services frame old) frame.session_id
        (resume_in_lane json config services frame request snapshot_id timestamp) s
        (idle-Answers json config services frame old s (ap (λ p. p.1) start))
        (λ s' same.
          resume_in_lane-Answers request snapshot_id timestamp s' words own asked (same ∙ start))

  -- A result set anew keeps the queue.
  pub resume_known-Answers :
      (request : ResumePayload) (session : SessionState) (timestamp : ℤ) (snapshot_id : Text)
      (s : ServerState W)
      → IsUint64 json services
      → Named json config services request.state_sync snapshot_id
      → decode_payload json json.decode_resume config.strict frame.payload ≡ ok request
      → s.outbound ≡ old
      → Answers json config services frame old
          (seen (resume_known json config services frame request session timestamp snapshot_id s).0)
  resume_known-Answers request session timestamp snapshot_id s words own asked start =
      resume_stream-Answers request snapshot_id timestamp
        (record s { result = record no_result { capabilities = session.capabilities } }) words own
        asked (ap (λ q. (q, [])) start)

  pub closing-Answers :
      (code : ErrorCode) (message : Text) (retryable : Bool) (timestamp : ℤ) (s : ServerState W)
      → Answers json config services frame old
          (seen (close_and_refuse json config services frame code message retryable timestamp s).0)
  closing-Answers code message retryable timestamp s =
      refused-Answers json config services frame old code message retryable timestamp
        (record s { result = closed_result }) refl
