-- ===== src/Client/Ordering/Stream.antt =====
-- Every method, and every run of them.
use kmtproto.Prelude.{
  ℕ, zero, suc, ◌+◌, ◌<◌, ◌^◌, ◌≡◌, inl, inr, List, [], ◌∷◌, ◌++◌, ap, refl, length, length-append,
  arith, Text, Map, sort_strings, sym, ◌∙◌,
}
use kmtproto.Wire.{Envelope, ok, err, Json, stale_connection}
use kmtproto.Client.{
  Client, Outcome, Call, retries_pending, retries, keys_of, stop_replay, stop_state_resume,
  receives, step, run, actions_of, transport_connected, begin_connect, disconnect, check_heartbeat,
  heartbeat, start_session, start_resume, resume_session, resume_with_state, send_ping, query_state,
  enqueue_send, retry_pending, go_disconnected, begin_recovery, reset_connection_transient,
  handle_incoming, settle, dispatch, handle_incoming_failure,
}
use kmtproto.Client.Cases.{
  dispatch_cases, handle_incoming_cases, handle_state_snapshot_cases, handle_state_update_cases,
  handle_error_cases,
}
use kmtproto.Client.Ordering.Defs.{
  delivered, delivered-append, count_up, IsOrdered, Orderly, FitsWire,
}
use kmtproto.Client.Ordering.Replay.{handle_event-Orderly}
use kmtproto.Client.Ordering.Quiet.{
  apply_state_objects-Orderly, store_answer-Orderly, store_resumed-Orderly, fail-Orderly,
  handle_welcome-Orderly, handle_pong-Orderly, handle_ack-Orderly, closed-Orderly,
  react_to_error-Orderly, failure-Orderly, invalid-Orderly,
}

retries-quiet : (ids : List Text) (outbox : Map Text Envelope) → delivered (retries ids outbox) ≡ []
unfolding retries delivered
retries-quiet [] outbox = refl
retries-quiet (id ∷ ids) outbox = ground (arith, retries-quiet ids outbox)

settle-Orderly : (json : Json) (c : Client) (o : Outcome) → Orderly c o → Orderly c (settle o)
unfolding delivered handle_incoming_failure stop_replay stop_state_resume go_disconnected
settle-Orderly json c (c', ok actions) h = h
settle-Orderly json c (c', err e) h = ground (arith, failure-Orderly json c' h.0 e, h.0, h.1)

module _ (json : Json) (c : Client) (v : IsOrdered c) where
  dispatch-Orderly :
      (g : ℕ) (frame : Envelope) (now : ℕ)
      → frame.seq < 2 ^ 64
      → Orderly c (dispatch json frame.type c g frame now)
  dispatch-Orderly g frame now fits =
      let failed = fail-Orderly json c v in
      dispatch_cases (Orderly c) json c g frame now (handle_welcome-Orderly json c v frame)
        (handle_pong-Orderly json c v g frame) (handle_ack-Orderly json c v frame)
        (handle_event-Orderly c frame v json now fits)
        (handle_state_snapshot_cases (Orderly c) json c g frame now failed
          (store_answer-Orderly json c v) (store_resumed-Orderly c v json))
        (handle_state_update_cases (Orderly c) json c g frame now failed
          (apply_state_objects-Orderly json c v))
        (handle_error_cases (Orderly c) json c g frame now (closed-Orderly json c v)
          (react_to_error-Orderly c v))
        failed frame.type

  handle_incoming-Orderly :
      (g : ℕ) (frame : Envelope) (now : ℕ)
      → frame.seq < 2 ^ 64
      → Orderly c (handle_incoming json c g frame now)
  handle_incoming-Orderly g frame now fits =
      handle_incoming_cases (Orderly c) json c g frame now (fail-Orderly json c v stale_connection)
        (invalid-Orderly json c v frame) (failure-Orderly json c v)
        (settle-Orderly json c _ (dispatch-Orderly g frame now fits))

  -- Whatever method is called, at any time: the replay buffer stays a gap-free continuation of
  -- `last_seq`, and either the call delivers exactly the next sequences and counts them in `last_seq`,
  -- or it abandons the Session, delivering nothing. Frames carry sequences below 2 ^ 64.
  pub step-Orderly : (now : ℕ) (call : Call) → FitsWire call → Orderly c (step json c now call)
  unfolding step transport_connected disconnect check_heartbeat heartbeat start_session start_resume
      resume_session resume_with_state send_ping query_state enqueue_send retry_pending
      go_disconnected begin_recovery reset_connection_transient begin_connect delivered
  step-Orderly now (receives g frame) fits = handle_incoming-Orderly g frame now fits
  step-Orderly now retries_pending fits = ground (
    arith,
    retries-quiet (sort_strings (keys_of c.outbox)) c.outbox,
    v.contiguous,
    v.fits,
    v.idle,
  )
  step-Orderly now call fits = ground (arith, v.contiguous, v.fits, v.idle)

-- After each call of the run, the client holds a Session.
abbrev pub HoldsSession : Json → Client → List (ℕ × Call) → Type 0
HoldsSession json c [] = Unit
HoldsSession json c ((now, call) ∷ calls) =
    let next = (step json c now call).0 in ¬ (next.session_id ≡ []) × HoldsSession json next calls

abbrev pub AllFit : List (ℕ × Call) → Type 0
AllFit [] = Unit
AllFit ((now, call) ∷ calls) = FitsWire call × AllFit calls

count_up-append : (from m n : ℕ) → count_up from m ++ count_up (from + m) n ≡ count_up from (m + n)
count_up-append from zero n = ground arith
count_up-append from (suc m) n =
    let shift : from + suc m ≡ from + 1 + m = omega arith in
    let total : suc m + n ≡ suc (m + n) = omega arith in
    rw (shift, total) (ap (◌∷◌ from) (count_up-append (from + 1) m n))

count_up-join :
    (from : ℕ) (xs ys : List ℕ)
    → xs ≡ count_up from (length xs)
    → ys ≡ count_up (from + length xs) (length ys)
    → xs ++ ys ≡ count_up from (length (xs ++ ys))
count_up-join from xs ys h k =
    ap (λ zs. zs ++ ys) h
    ∙ (ap (λ zs. count_up from (length xs) ++ zs) k
        ∙ (count_up-append from (length xs) (length ys)
            ∙ ap (count_up from) (sym (length-append xs ys))))

-- From a client whose replay buffer continues `last_seq`, over every run of calls after each of which
-- it still holds a Session: the application receives exactly the sequences after `last_seq`, one by
-- one, none missing, repeated or out of order, and `last_seq` ends at the last of them. Frames carry
-- sequences below 2 ^ 64.
pub run-delivers_in_order :
    (json : Json) (c : Client) (calls : List (ℕ × Call))
    → IsOrdered c
    → AllFit calls
    → HoldsSession json c calls
    → let (last, actions) = run json c calls in
      (last.last_seq ≡ c.last_seq + length (delivered actions))
      × (delivered actions ≡ count_up (c.last_seq + 1) (length (delivered actions)))
unfolding run delivered
run-delivers_in_order json c [] v fits holds = (omega arith, refl)
run-delivers_in_order json c ((now, call) ∷ calls) v fits holds =
    let s = step-Orderly json c v now call fits.0 in
    let rest = run-delivers_in_order json (step json c now call).0 calls s.0 fits.1 holds.1 in
    let here = delivered (actions_of (step json c now call).1) in
    let later = delivered (run json (step json c now call).0 calls).1 in
    elim s.1 [
      | inr over ↦ elim (holds.0 over.0) [ ]
      | inl next ↦
          let start : c.last_seq + 1 + length here ≡ (step json c now call).0.last_seq + 1 =
            omega (arith, next.0) in
          rw
            (delivered-append (actions_of (step json c now call).1)
              (run json (step json c now call).0 calls).1)
            (
              omega (arith, next.0, rest.0, length-append here later),
              count_up-join (c.last_seq + 1) here later next.1 (rw start rest.1),
            )
    ]
