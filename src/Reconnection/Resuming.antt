-- ===== src/Reconnection/Resuming.antt =====
-- handleResume's whole answer at the client.
use mathlib.Core.List.{append-nil}
use kmtproto.Prelude.{
  ℕ, ℤ, suc, ◌+◌, ◌-◌, ◌<◌, ◌≤◌, ◌^◌, ◌≡◌, refl, sym, ap, ◌∙◌, subst, false, Text, List, [], ◌∷◌,
  ◌++◌, none, length, is_empty, false, arith,
}
use kmtproto.Wire.{Envelope, Json, ResumePayload, decode_payload, ok}
use kmtproto.Client.{Client, handle_welcome, accept_replay}
use kmtproto.Server.{Services, ServerConfig, ServerState, handle_resume, welcome_back}
use kmtproto.Outbound.{OutboundQueue}
use kmtproto.Server.Ranges.{Follows}
use kmtproto.Server.Batches.{IsResumed}
use kmtproto.Server.StateFrames.{Pictures}
use kmtproto.Server.Resumption.{IsUint64}
use kmtproto.Server.Readiness.{handle_resume-answers}
use kmtproto.Reconnection.{receive_batch}
use kmtproto.Reconnection.Acceptance.{
  IsAsking, ReadsWelcome, HasRoom, IsBack, resumed_payload, Follows-Contiguous,
  handle_welcome-resumed, welcome_resumed-accepts, receive_batch-IsBack,
}

-- What the client asked for, as the server reads it.
abbrev pub asked_by : Client → ResumePayload
asked_by c = record { last_seq = c.last_seq; state_sync = none }

-- Behind the WELCOME.
abbrev pub behind_first : List Envelope → List Envelope
behind_first [] = []
behind_first (first ∷ events) = events

module _ {W : Type 0} (json : Json) (config : ServerConfig) (services : Services W)
    (frame : Envelope) (c : Client) (now : ℕ) where
  welcome-accepted :
      (replay_to : ℕ) (timestamp : ℤ)
      → IsAsking c frame
      → ReadsWelcome json c.config.strict_validation
      → c.last_seq < 2 ^ 64 - 1
      → c.last_seq ≤ replay_to
      → handle_welcome json c
          (welcome_back json config services frame (asked_by c) replay_to timestamp)
        ≡ accept_replay c replay_to
  welcome-accepted replay_to timestamp asking reads low through =
      let p = resumed_payload timestamp (c.last_seq + 1) replay_to in
      let first = welcome_back json config services frame (asked_by c) replay_to timestamp in
      handle_welcome-resumed json c frame first p asking
        (reads.reads timestamp (c.last_seq + 1) replay_to)
      ∙ welcome_resumed-accepts json c frame first p asking asking.own refl refl (omega arith)
          through

  -- The client is back after these frames, if it has room for them.
  abbrev pub Restores : List Envelope → Type 0
  Restores frames =
      HasRoom c (behind_first frames)
      → Follows frame.session_id (suc c.last_seq) (behind_first frames)
        × IsBack c (receive_batch json c frames now).0 (behind_first frames)
            (receive_batch json c frames now).1

  batch-Restores :
      (replay_to : ℕ) (timestamp : ℤ) (events snapshots : List Envelope)
      → IsAsking c frame
      → ReadsWelcome json c.config.strict_validation
      → c.last_seq < 2 ^ 64 - 1
      → replay_to < 2 ^ 64
      → c.last_seq + length events ≡ replay_to
      → Follows frame.session_id (suc c.last_seq) events
      → length snapshots ≡ 0
      → Restores (
          (welcome_back json config services frame (asked_by c) replay_to timestamp ∷ events)
          ++ snapshots)
  batch-Restores replay_to timestamp events [] asking reads low near whole ordered bare =
      let first = welcome_back json config services frame (asked_by c) replay_to timestamp in
      subst Restores (sym (append-nil (first ∷ events))) (λ room. (
        ordered,
        receive_batch-IsBack json c frame now asking first events
            (welcome-accepted replay_to timestamp asking reads low (omega arith)
              ∙ ap (accept_replay c) (sym whole))
            (Follows-Contiguous frame.session_id c.last_seq events ordered) (omega arith) room,
      ))
  batch-Restores replay_to timestamp events (x ∷ snapshots) asking reads low near whole ordered
        bare =
      absurd (omega arith)

  resumed-Restores :
      (old new : OutboundQueue) (ready_id : Text)
      → IsAsking c frame
      → ReadsWelcome json c.config.strict_validation
      → decode_payload json json.decode_resume config.strict frame.payload ≡ ok (asked_by c)
      → old.frames ≡ []
      → IsResumed json config services frame old new ready_id
      → Restores new.frames
  resumed-Restores old new ready_id asking reads read idle answer =
      let same : answer.request ≡ asked_by c = ground (arith, answer.asked, read) in
      subst Restores
        (sym (
          answer.sent
          ∙ ap
              (λ (l : List Envelope).
                l
                ++ ((welcome_back json config services frame answer.request answer.replay_to
                        answer.timestamp
                      ∷ answer.events)
                    ++ answer.snapshots))
              idle
          ∙ ap
              (λ (r : ResumePayload).
                (welcome_back json config services frame r answer.replay_to answer.timestamp
                  ∷ answer.events)
                ++ answer.snapshots)
              same))
        (batch-Restores answer.replay_to answer.timestamp answer.events answer.snapshots asking
          reads (subst (λ (r : ResumePayload). r.last_seq < 2 ^ 64 - 1) same answer.low) answer.near
          (subst (λ (r : ResumePayload). r.last_seq + length answer.events ≡ answer.replay_to) same
            answer.whole)
          (subst (λ (r : ResumePayload). Follows frame.session_id (suc r.last_seq) answer.events)
            same answer.ordered)
          (ap length (
            subst
              (λ (r : ResumePayload).
                Pictures json config services frame.session_id answer.timestamp r.state_sync
                  answer.snapshots)
              same answer.with_state)))

  -- A resume without State, from the client's request to READY. The client is RESUMING the Session of the
  -- frame, and the server reads its last sequence off the frame; the queue starts empty; the server's sequences
  -- are uint64, its JSON library reads back a WELCOME that it wrote, and the client's two limits leave room for
  -- the events of the answer. Then, if handleResume makes the Session ready, all that it enqueued, given to the
  -- client's handlers of WELCOME and EVENT, leaves the client READY behind the last event, the events are those of the Session from the one behind the
  -- client's last on, without a gap, and the actions are their deliveries in this order and the report that the
  -- Session is ready.
  pub handle_resume-restores :
      (s : ServerState W)
      → IsAsking c frame
      → ReadsWelcome json c.config.strict_validation
      → decode_payload json json.decode_resume config.strict frame.payload ≡ ok (asked_by c)
      → IsUint64 json services
      → s.outbound.frames ≡ []
      → s.result.ready_session_id ≡ []
      → is_empty (handle_resume json config services frame s).0.result.ready_session_id ≡ false
      → let frames = (handle_resume json config services frame s).0.outbound.frames in
        HasRoom c (behind_first frames)
        → Follows frame.session_id (suc c.last_seq) (behind_first frames)
          × IsBack c
              (receive_batch json c frames now).0
              (behind_first frames)
              (receive_batch json c frames now).1
  handle_resume-restores s asking reads read words empty idle named =
      let (after, ending) = handle_resume json config services frame s in
      resumed-Restores s.outbound after.outbound after.result.ready_session_id asking reads read
        empty (handle_resume-answers json config services frame s words idle named)
