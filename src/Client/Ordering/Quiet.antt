-- ===== src/Client/Ordering/Quiet.antt =====
-- Everything but EVENT frames: what else may deliver, and what leaves the stream alone.
use mathlib.Core.List.{append-nil}
use kmtproto.Prelude.{
  ℕ, ◌+◌, ◌≡◌, inl, inr, List, [], ◌∷◌, ◌++◌, ap, refl, length, arith, Bool, true, false, Text,
  Option, subst, lookup, Bool-cases, delete, text_instance,
}
use kmtproto.Wire.{
  Envelope, Result, ok, err, Err, Json, identity_instance, StateObject, StateIdentity, ErrorPayload,
}
use kmtproto.State.{ApplyOutcome, identity, apply_state_object}
use kmtproto.Client.{
  ClientConfig, Client, Action, state_changed, session_ready, Outcome, Staged, stage_committed,
  stage_one, stage_all, fail, store_answer, store_resumed, apply_state_objects, finish_state_resume,
  deliver_all, handle_welcome, handle_pong, handle_ack, react_to_error, settle_error,
  go_disconnected, handle_incoming_failure, reject_invalid, stop_state_resume, actions_of, done,
  close_connection,
}
use kmtproto.Wire.{error_code_text, behavior_for_error_code}
use kmtproto.Client.{
  protocol_error_action, full_sync_required_action, react, resume_error, is_resuming,
}
use kmtproto.Client.Cases.{if_cases}
use kmtproto.Prelude.{is_empty}
use kmtproto.Client.Cases.{Result-cases}
use kmtproto.Client.Ordering.Defs.{delivered, delivered-append, IsOrdered, Orderly}
use kmtproto.Client.Ordering.Replay.{deliver_all-Continues, length-count_up, delivered-ready}

-- Staged actions report State only.
abbrev IsQuiet : Result Staged → Type 0
IsQuiet (ok staged) = delivered staged.actions ≡ []
IsQuiet (err e) = Unit

module _ (json : Json) (config : ClientConfig) where
  stage_committed-IsQuiet :
      (staged : Staged) (current : Option StateObject) (key : StateIdentity) (o : ApplyOutcome)
      → delivered staged.actions ≡ []
      → IsQuiet (stage_committed config staged current key o)
  unfolding stage_committed delivered
  stage_committed-IsQuiet staged current key o h =
      ground (arith, delivered-append staged.actions (state_changed o.committed o.result ∷ []))

  stage_one-IsQuiet :
      (staged : Staged) (incoming : StateObject)
      → delivered staged.actions ≡ []
      → IsQuiet (stage_one json config staged incoming)
  unfolding stage_one
  stage_one-IsQuiet staged incoming h =
      let current = lookup (identity incoming) staged.objects in
      let o = apply_state_object json current incoming config.limits in
      ground (arith, stage_committed-IsQuiet staged current (identity incoming) o h)

  stage_all-IsQuiet :
      (staged : Staged) (objects : List StateObject)
      → delivered staged.actions ≡ []
      → IsQuiet (stage_all json config staged objects)
  unfolding stage_all
  stage_all-IsQuiet staged [] h = h
  stage_all-IsQuiet staged (incoming ∷ rest) h =
      elim (Result-cases (stage_one json config staged incoming)) [
        | inl (next, r) ↦
            rw (r, IsQuiet, stage_all)
              (stage_all-IsQuiet next rest (subst IsQuiet r (stage_one-IsQuiet staged incoming h)))
        | inr (e, r) ↦ rw (r, IsQuiet, stage_all) tt
      ]

-- Nothing is delivered, and the stream is left alone.
pub record Untouched (c : Client) (o : Outcome) : Type 0 where
  pub quiet : delivered (actions_of o.1) ≡ []
  pub session : o.0.session_id ≡ c.session_id
  pub last : o.0.last_seq ≡ c.last_seq
  pub buffer : o.0.replay_buffer ≡ c.replay_buffer
  pub phase : o.0.state ≡ c.state

module _ (json : Json) (c : Client) where
  apply_state_objects-Untouched :
      (objects : List StateObject) → Untouched c (apply_state_objects json c objects)
  unfolding apply_state_objects delivered
  apply_state_objects-Untouched objects =
      let start : Staged = record {
        objects = c.state_objects;
        bytes = c.state_bytes;
        actions = [];
      } in
      ground (arith, stage_all-IsQuiet json c.config start objects refl)

  module _ (v : IsOrdered c) where
    pub apply_state_objects-Orderly :
        (states : List StateObject) → Orderly c (apply_state_objects json c states)
    apply_state_objects-Orderly states =
        ground (arith, apply_state_objects-Untouched states, v.contiguous, v.fits, v.idle)

    pub fail-Orderly : (e : Err) → Orderly c (fail c e)
    unfolding delivered
    fail-Orderly e = ground (arith, v.contiguous, v.fits, v.idle)

    pub store_answer-Orderly :
        (id : Text) (states : List StateObject) → Orderly c (store_answer json c id states)
    unfolding store_answer delivered
    store_answer-Orderly id states =
        ground (arith, apply_state_objects-Untouched states, v.contiguous, v.fits, v.idle)

    finish_state_resume-Orderly :
        (actions : List Action)
        → delivered actions ≡ []
        → Orderly c (finish_state_resume json c actions)
    unfolding finish_state_resume delivered
    finish_state_resume-Orderly actions quiet =
        let d = deliver_all-Continues c c.replay_buffer v.contiguous in
        let events = (deliver_all c c.replay_buffer).1 in
        ground (
          arith,
          d,
          delivered-append events (actions ++ session_ready c.session_id ∷ []),
          delivered-ready actions c.session_id,
          append-nil (delivered events),
          ap length d.1,
          length-count_up (c.last_seq + 1) (length c.replay_buffer),
          v.fits,
          v.idle,
        )

    pub handle_welcome-Orderly : (frame : Envelope) → Orderly c (handle_welcome json c frame)
    unfolding handle_welcome delivered
    handle_welcome-Orderly frame = ground (arith, v.contiguous, v.fits, v.idle)

    pub handle_pong-Orderly : (g : ℕ) (frame : Envelope) → Orderly c (handle_pong json c g frame)
    unfolding handle_pong delivered
    handle_pong-Orderly g frame = ground (arith, v.contiguous, v.fits, v.idle)

    pub handle_ack-Orderly : (frame : Envelope) → Orderly c (handle_ack json c frame)
    unfolding handle_ack delivered
    handle_ack-Orderly frame = ground (arith, v.contiguous, v.fits, v.idle)

    pub closed-Orderly :
        (reason : Text) → Orderly c (done (go_disconnected c) (close_connection reason ∷ []))
    unfolding go_disconnected delivered
    closed-Orderly reason = ground (arith, v.contiguous, v.fits, v.idle)

    pub failure-Orderly : (e : Err) → Orderly c (handle_incoming_failure c e)
    unfolding handle_incoming_failure delivered
    failure-Orderly e = ground (arith, v.contiguous, v.fits, v.idle)

    pub invalid-Orderly : (frame : Envelope) (e : Err) → Orderly c (reject_invalid c frame e)
    unfolding reject_invalid delivered
    invalid-Orderly frame e = ground (arith, failure-Orderly e, v.contiguous, v.fits, v.idle)

-- The same stream position, and nothing buffered that was not.
module _ (c left : Client) (v : IsOrdered left) (same : left.last_seq ≡ c.last_seq) where
  settle_error-Orderly :
      (payload : ErrorPayload) (abandon need_close : Bool) (actions : List Action)
      → delivered actions ≡ []
      → Orderly c (settle_error left payload abandon need_close actions)
  unfolding settle_error delivered
  settle_error-Orderly payload false false actions h = ground (arith, v.contiguous, v.fits, v.idle)
  settle_error-Orderly payload true false actions h = ground (arith, v.contiguous, v.fits, v.idle)
  settle_error-Orderly payload false true actions h = ground (
    arith,
    v.contiguous,
    v.fits,
    v.idle,
    delivered-append actions (close_connection (error_code_text payload.code) ∷ []),
  )
  settle_error-Orderly payload true true actions h = ground (
    arith,
    v.contiguous,
    v.fits,
    v.idle,
    delivered-append actions (close_connection (error_code_text payload.code) ∷ []),
  )

  resumed-Orderly :
      (json : Json) (actions : List Action)
      → delivered actions ≡ []
      → Orderly c (finish_state_resume json left actions)
  resumed-Orderly json actions quiet =
      ground (arith, finish_state_resume-Orderly json left v actions quiet)

  disconnected-IsOrdered : IsOrdered (go_disconnected left)
  unfolding go_disconnected
  disconnected-IsOrdered = ground (arith, v.fits)

module _ (c left : Client) (v : IsOrdered left) (same : left.last_seq ≡ c.last_seq) where
  react-Orderly : (payload : ErrorPayload) → Orderly c (react left payload)
  unfolding react delivered
  react-Orderly payload =
      let behavior = (behavior_for_error_code payload.code).0 in
      let settled =
        settle_error-Orderly c (go_disconnected left) (disconnected-IsOrdered c left v same) same
          payload in
      elim (Bool-cases (is_resuming left.state)) [
        | inr e ↦ rw e (
            settle_error-Orderly c left v same payload behavior.abandon_session
              behavior.close_connection (protocol_error_action payload ∷ []) refl)
        | inl e ↦ rw e (elim (Bool-cases (resume_error left payload behavior)) [
          | inl f ↦ rw f (
              settled behavior.abandon_session behavior.close_connection
                (protocol_error_action payload ∷ full_sync_required_action left.session_id ∷ [])
                refl)
          | inr f ↦
              rw f (settled behavior.abandon_session true (protocol_error_action payload ∷ []) refl)
        ])
      ]

module _ (c : Client) (v : IsOrdered c) where
  pub store_resumed-Orderly :
      (json : Json) (states : List StateObject) → Orderly c (store_resumed json c states)
  unfolding store_resumed stop_state_resume delivered
  store_resumed-Orderly json states =
      let u = apply_state_objects-Untouched json c states in
      let c' = (apply_state_objects json c states).0 in
      let v' : IsOrdered c' = record {
        contiguous = ground (arith, u, v.contiguous);
        fits = ground (arith, u, v.fits);
        idle = ground (arith, u, v.idle);
      } in
      elim (Result-cases (apply_state_objects json c states).1) [
        | inl (actions, r) ↦
            rw (r, store_resumed)
              (resumed-Orderly c c' v' u.last json actions
                (subst (λ x. delivered (actions_of x) ≡ []) r u.quiet))
        | inr (e, r) ↦
            rw (r, store_resumed)
              (disconnected-IsOrdered c c' v' u.last, inl (omega (arith, u.last), refl))
      ]

  pub react_to_error-Orderly : (payload : ErrorPayload) → Orderly c (react_to_error c payload)
  unfolding react_to_error
  react_to_error-Orderly payload =
      let kept = record c { state_queries = delete payload.ref_id c.state_queries } in
      let vk : IsOrdered kept = record {
        contiguous = v.contiguous;
        fits = v.fits;
        idle = v.idle;
      } in
      if_cases (Orderly c) (is_empty payload.ref_id) (react c payload) (react kept payload)
        (react-Orderly c c v refl payload) (react-Orderly c kept vk refl payload)
