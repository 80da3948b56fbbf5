-- ===== src/Server/Readiness.antt =====
-- handleResume as a whole: when it reports a Session as ready, the queue holds a complete answer.
use kmtproto.Prelude.{
  ℤ, not, ◌≡◌, refl, true, false, Text, List, [], Option, none, some, is_empty, lit, unix_milli,
  if◌then◌else◌, arith,
}
use kmtproto.Wire.{
  Envelope, Json, invalid_session, unsupported_feature, state_unavailable, ResumePayload,
  decode_payload, ok,
}
use kmtproto.State.{state_sync_enabled}
use kmtproto.Store.{SessionState}
use kmtproto.Outbound.{OutboundQueue}
use kmtproto.Server.Types.{returns, Services, ServerConfig, ServerState, no_result}
use kmtproto.Server.Monad.{M, perform, ◌>>=◌}
use kmtproto.Server.Resumes.{
  resume_known, close_and_refuse, name_snapshot, resume_found, answer_session, is_some,
  unnamed_snapshot, handle_resume,
}
use kmtproto.Server.Effects.{seen, after_rescue, after_if, after_bind, after_pure}
use kmtproto.Server.Resumption.{IsUint64, resume_known-Answers, closing-Answers}
use kmtproto.Server.StateFrames.{Named}
use kmtproto.Server.Batches.{IsResumed, Answers, idle-Answers, refused-Answers}

module _ {W : Type 0} (json : Json) (config : ServerConfig) (services : Services W)
    (frame : Envelope) (old : OutboundQueue) where
  unnamed :
      (wanted : Option (List Text)) (id : Text)
      → not (is_some wanted) ≡ true
      → Named json config services wanted id
  unnamed none id e = tt
  unnamed (some namespaces) id e = ground (arith, e)

  generated_id :
      (wanted : Option (List Text)) (id : Text) (w : W)
      → (services.new_frame_id w).1 ≡ returns id
      → is_empty id ≡ false
      → Named json config services wanted id
  generated_id none id w e filled = tt
  generated_id (some namespaces) id w e filled = (filled, (w, e))

  name_snapshot-Answers :
      (request : ResumePayload) (session : SessionState) (timestamp : ℤ) (s : ServerState W)
      → IsUint64 json services
      → decode_payload json json.decode_resume config.strict frame.payload ≡ ok request
      → s.outbound ≡ old
      → s.result.ready_session_id ≡ []
      → Answers json config services frame old
          (seen (name_snapshot json config services frame request session timestamp s).0)
  name_snapshot-Answers request session timestamp s words asked start idle =
      let P = Answers json config services frame old in
      let m : M W Text = perform services.new_frame_id in
      let refused : (s' : ServerState W)
          → P (seen (unnamed_snapshot json config services frame timestamp s').0) =
        λ s'.
          closing-Answers json config services frame old state_unavailable
            (lit "State snapshot identity could not be produced") true timestamp s' in
      after_rescue P m (λ e. unnamed_snapshot json config services frame timestamp)
        (λ id.
          if is_empty id
          then unnamed_snapshot json config services frame timestamp
          else resume_known json config services frame request session timestamp id)
        s
        (λ id made.
          after_if P (is_empty id) (unnamed_snapshot json config services frame timestamp)
            (resume_known json config services frame request session timestamp id) (m s).0
            (λ e. refused (m s).0)
            (λ filled.
              resume_known-Answers json config services frame old request session timestamp id
                (m s).0 words (generated_id request.state_sync id s.world made filled) asked start))
        (λ e. refused (m s).0) (idle-Answers json config services frame old (m s).0 idle)

  resume_found-Answers :
      (request : ResumePayload) (session : SessionState) (timestamp : ℤ) (s : ServerState W)
      → IsUint64 json services
      → decode_payload json json.decode_resume config.strict frame.payload ≡ ok request
      → s.outbound ≡ old
      → s.result.ready_session_id ≡ []
      → Answers json config services frame old
          (seen (resume_found json config services frame request session timestamp s).0)
  unfolding state_sync_enabled
  resume_found-Answers request session timestamp s words asked start idle =
      let P = Answers json config services frame old in
      let named = name_snapshot json config services frame request session timestamp in
      let unsupported = lit "RESUME requires state-sync capability version 1" in
      let unavailable = lit "State snapshot provider is unavailable" in
      let refuse_feature =
        close_and_refuse json config services frame unsupported_feature unsupported false
          timestamp in
      let refuse_state =
        close_and_refuse json config services frame state_unavailable unavailable true timestamp in
      let with_provider = if not (is_some services.snapshot) then refuse_state else named in
      let with_feature =
        if not (state_sync_enabled session.capabilities) then refuse_feature else with_provider in
      after_if P (not (is_some request.state_sync))
        (resume_known json config services frame request session timestamp []) with_feature s
        (λ e.
          resume_known-Answers json config services frame old request session timestamp [] s words
            (unnamed request.state_sync [] e) asked start)
        (λ e.
          after_if P (not (state_sync_enabled session.capabilities)) refuse_feature with_provider s
            (λ e.
              closing-Answers json config services frame old unsupported_feature unsupported false
                timestamp s)
            (λ e.
              after_if P (not (is_some services.snapshot)) refuse_state named s
                (λ e.
                  closing-Answers json config services frame old state_unavailable unavailable true
                    timestamp s)
                (λ e. name_snapshot-Answers request session timestamp s words asked start idle)))

  answer_session-Answers :
      (request : ResumePayload) (found : Option SessionState) (timestamp : ℤ) (s : ServerState W)
      → IsUint64 json services
      → decode_payload json json.decode_resume config.strict frame.payload ≡ ok request
      → s.outbound ≡ old
      → s.result.ready_session_id ≡ []
      → Answers json config services frame old
          (seen (answer_session json config services frame request timestamp found s).0)
  answer_session-Answers request (some session) timestamp s words asked start idle =
      resume_found-Answers request session timestamp s words asked start idle
  answer_session-Answers request none timestamp s words asked start idle =
      refused-Answers json config services frame old invalid_session
        (lit "session expired or unknown") false timestamp
        (record s { result = record no_result { abandon_session = true } }) refl

-- When handleResume makes a Session ready, the queue has got exactly one batch behind what it held: the WELCOME
-- of the range up to the current sequence that the replay store returned, the EVENTs that the store then returned
-- for this range, in order, none missing, no more than the configured limit, and, if the request asked for State,
-- one valid State snapshot frame of the Session under a generated id, whose payload encodes the States that the
-- provider returned for the namespaces, all of them of these namespaces; otherwise no further frame. Whatever the
-- stores return, no other queue goes with a ready Session. The result names no Session before, and sequences
-- are uint64.
pub handle_resume-answers :
    {W : Type 0} (json : Json) (config : ServerConfig) (services : Services W) (frame : Envelope)
    (s : ServerState W)
    → IsUint64 json services
    → s.result.ready_session_id ≡ []
    → is_empty (handle_resume json config services frame s).0.result.ready_session_id ≡ false
    → IsResumed json config services frame s.outbound
        (handle_resume json config services frame s).0.outbound
        (handle_resume json config services frame s).0.result.ready_session_id
unfolding handle_resume
handle_resume-answers {W = W} json config services frame s words idle =
    let P = Answers json config services frame s.outbound in
    let begun = record s { world = (services.now s.world).0 } in
    let now = (services.now s.world).1 in
    let look : M W (Option SessionState) = perform (services.lookup_session frame.session_id now) in
    after_pure P (decode_payload json json.decode_resume config.strict frame.payload)
      (λ request. look >>= answer_session json config services frame request (unix_milli now)) begun
      (idle-Answers json config services frame s.outbound begun idle)
      (λ request asked.
        after_bind P look (answer_session json config services frame request (unix_milli now)) begun
          (λ found e.
            answer_session-Answers json config services frame s.outbound request found
              (unix_milli now) (look begun).0 words asked refl idle)
          (idle-Answers json config services frame s.outbound (look begun).0 idle))
