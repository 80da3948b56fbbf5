-- ===== src/Server/Batches.antt =====
-- handleResume: what stands in the queue when it reports that the Session is ready.
use kmtproto.Prelude.{
  ℕ, suc, ℤ, ◌+◌, ◌-◌, ◌^◌, ◌<◌, ◌≤◌, ◌≡◌, sym, ap, ◌∙◌, subst, refl, Bool, true, false, Text, List,
  [], ◌∷◌, ◌++◌, Option, none, some, length, is_empty, lit, arith,
}
use kmtproto.Wire.{
  Envelope, StateObject, state_unavailable, Json, ErrorCode, ResumePayload, decode_payload, ok,
}
use kmtproto.State.{StateSnapshotLimits}
use kmtproto.Server.Snapshots.{build_resume_state_snapshot}
use kmtproto.Outbound.{OutboundQueue, enqueue_batch}
use kmtproto.Server.Types.{Ending, returns, Services, ServerConfig, ServerState}
use kmtproto.Server.Resumes.{refuse_resume, close_resume, welcome_back, send_batch, finish_with}
use kmtproto.Server.Effects.{seen, build-seen, after_rescue, enqueue_error_at-ready}
use kmtproto.Server.Served.{replay_call, IsServed}
use kmtproto.Server.StateFrames.{Pictures, Named, build-IsPicture}
use kmtproto.Server.Ranges.{Follows}

module _ {W : Type 0} (json : Json) (config : ServerConfig) (services : Services W) where
  -- The answer to a RESUME, behind what the queue held: one WELCOME up to the current sequence that the store
  -- returned, the EVENTs that the store then returned for the range, and a snapshot if State was asked for.
  pub record IsResumed (frame : Envelope) (old new : OutboundQueue) (ready_id : Text) : Type 0 where
    pub request : ResumePayload
    pub replay_to : ℕ
    pub timestamp : ℤ
    pub events : List Envelope
    pub snapshots : List Envelope
    pub asked : decode_payload json json.decode_resume config.strict frame.payload ≡ ok request
    pub named : ready_id ≡ frame.session_id
    pub sent :
        new.frames
        ≡ old.frames
          ++ ((welcome_back json config services frame request replay_to timestamp ∷ events)
              ++ snapshots)
    pub ordered : Follows frame.session_id (suc request.last_seq) events
    pub whole : request.last_seq + length events ≡ replay_to
    pub bounded : length events ≤ config.max_replay_events
    pub counter_world : W
    pub log_world : W
    pub counted :
        services.current_seq frame.session_id counter_world ≡ (log_world, returns replay_to)
    pub replayed :
        (replay_call json config services frame request replay_to log_world).1 ≡ returns events
    pub with_state :
        Pictures json config services frame.session_id timestamp request.state_sync snapshots
    pub low : request.last_seq < 2 ^ 64 - 1
    pub near : replay_to < 2 ^ 64

  -- What holds of the queue and the result wherever the method ends.
  abbrev pub Answers : Envelope → OutboundQueue → OutboundQueue × Text → Type 0
  Answers frame old (new, ready_id) = is_empty ready_id ≡ false → IsResumed frame old new ready_id

  module _ (frame : Envelope) (old : OutboundQueue) where
    pub idle-Answers :
        (s : ServerState W) → s.result.ready_session_id ≡ [] → Answers frame old (seen s)
    idle-Answers s e = λ h. ground (arith, e, h)

    pub refused-Answers :
        (code : ErrorCode) (message : Text) (retryable : Bool) (timestamp : ℤ) (s : ServerState W)
        → s.result.ready_session_id ≡ []
        → Answers frame old
            (seen (refuse_resume json config services frame code message retryable timestamp s).0)
    refused-Answers code message retryable timestamp s e =
        idle-Answers (refuse_resume json config services frame code message retryable timestamp s).0
          (ap (λ r. r.ready_session_id)
              (enqueue_error_at-ready json config services frame.session_id [] code message
                retryable timestamp s)
            ∙ e)

    pub closed-Answers :
        (code : ErrorCode) (message : Text) (retryable : Bool) (timestamp : ℤ) (s : ServerState W)
        → s.result.ready_session_id ≡ []
        → Answers frame old
            (seen (close_resume json config services frame code message retryable timestamp s).0)
    closed-Answers code message retryable timestamp s e =
        refused-Answers code message retryable timestamp
          (record s { result = record s.result { close = true } }) e

    send_batch-sent :
        (request : ResumePayload) (replay_to : ℕ) (timestamp : ℤ) (events snapshots : List Envelope)
        (s : ServerState W)
        → s.result.ready_session_id ≡ []
        → is_empty
            (send_batch json config services frame request replay_to timestamp events snapshots
              s).0.result.ready_session_id
          ≡ false
        → ((send_batch json config services frame request replay_to timestamp events snapshots
              s).0.result.ready_session_id
            ≡ frame.session_id)
          × ((send_batch json config services frame request replay_to timestamp events snapshots
                s).0.outbound.frames
              ≡ s.outbound.frames
                ++ ((welcome_back json config services frame request replay_to timestamp ∷ events)
                    ++ snapshots))
    unfolding send_batch enqueue_batch
    send_batch-sent request replay_to timestamp events snapshots s e h = ground arith

    send_batch-Answers :
        (request : ResumePayload) (replay_to : ℕ) (timestamp : ℤ) (events snapshots : List Envelope)
        (s : ServerState W)
        → IsServed json config services frame request replay_to events
        → Pictures json config services frame.session_id timestamp request.state_sync snapshots
        → seen s ≡ (old, [])
        → Answers frame old (
            seen
              (send_batch json config services frame request replay_to timestamp events snapshots
                s).0)
    send_batch-Answers request replay_to timestamp events snapshots s served fitting start = λ h.
        let (named, sent) =
          send_batch-sent request replay_to timestamp events snapshots s (ap (λ p. p.1) start) h in
        record {
          request = request;
          replay_to = replay_to;
          timestamp = timestamp;
          events = events;
          snapshots = snapshots;
          asked = served.asked;
          named = named;
          sent =
              sent
              ∙ ap
                  (λ p.
                    p.0.frames
                    ++ ((welcome_back json config services frame request replay_to timestamp
                          ∷ events)
                        ++ snapshots))
                  start;
          ordered = served.ordered;
          whole = served.whole;
          bounded = served.bounded;
          counter_world = served.counter_world;
          log_world = served.log_world;
          counted = served.counted;
          replayed = served.replayed;
          with_state = fitting;
          low = served.low;
          near = served.near;
        }

    pub finish_with-Answers :
        (request : ResumePayload) (snapshot_id : Text) (replay_to : ℕ) (timestamp : ℤ)
        (events : List Envelope) (wanted : Option (List Text))
        (provider : Option (List Text → StateSnapshotLimits → W → W × Ending (List StateObject)))
        (s : ServerState W)
        → request.state_sync ≡ wanted
        → services.snapshot ≡ provider
        → Named json config services wanted snapshot_id
        → IsServed json config services frame request replay_to events
        → seen s ≡ (old, [])
        → Answers frame old (
            seen
              (finish_with json config services frame request snapshot_id replay_to timestamp events
                wanted provider s).0)
    unfolding finish_with
    finish_with-Answers request snapshot_id replay_to timestamp events none provider s e source own
          served start =
        send_batch-Answers request replay_to timestamp events [] s served
          (subst (λ w. Pictures json config services frame.session_id timestamp w []) (sym e) refl)
          start
    finish_with-Answers request snapshot_id replay_to timestamp events (some namespaces) none s e
          source own served start =
        idle-Answers s (ap (λ p. p.1) start)
    finish_with-Answers request snapshot_id replay_to timestamp events (some namespaces) (some call)
          s e source own served start =
        let m =
          build_resume_state_snapshot json config call frame.session_id snapshot_id timestamp
            namespaces in
        let begun =
          build-seen json config call frame.session_id snapshot_id timestamp namespaces s ∙ start in
        after_rescue (Answers frame old) m
          (λ x.
            close_resume json config services frame state_unavailable
              (lit "State snapshot could not be produced") true timestamp)
          (λ snapshot.
            send_batch json config services frame request replay_to timestamp events
              (snapshot ∷ []))
          s
          (λ snapshot x.
            send_batch-Answers request replay_to timestamp events (snapshot ∷ []) (m s).0 served
              (subst
                (λ w. Pictures json config services frame.session_id timestamp w (snapshot ∷ []))
                (sym e)
                (
                  snapshot,
                  refl,
                  build-IsPicture json config services call frame.session_id snapshot_id timestamp
                      namespaces s snapshot source own x,
                ))
              begun)
          (λ x.
            closed-Answers state_unavailable (lit "State snapshot could not be produced") true
              timestamp (m s).0 (ap (λ p. p.1) begun))
          (idle-Answers (m s).0 (ap (λ p. p.1) begun))
