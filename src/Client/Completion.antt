-- ===== src/Client/Completion.antt =====
-- A replay that arrives in full ends in READY.
use mathlib.Core.List.{append-nil, append_assoc}
use kmtproto.Prelude.{
  Bool-cases, inl, inr, true, false, nat_beq, ltb_ℤ, if◌then◌else◌, ℕ, ◌+◌, ◌<◌, ◌≤◌, ◌^◌, ◌≡◌, pos,
  ◌+ℤ◌, ◌-ℤ◌, ◌≤ℤ◌, refl, ap, sym, ◌∙◌, subst, List, [], ◌∷◌, ◌++◌, map, length, length-append,
  is_empty, arith,
}
use kmtproto.Wire.{Json, Envelope, resuming, ready, ok}
use kmtproto.Client.{
  add_u64, Client, Action, deliver_event, session_ready, done, actions_of, handle_event,
  replay_event, replay_event_bytes, finish_replay, deliver_all, remember_event,
}
use kmtproto.Client.Ordering.{Contiguous, Contiguous-append, deliver_all-Continues}

-- The handler on the frames one after the other, with all actions.
unfoldable pub receive_all : Json → Client → List Envelope → ℕ → Client × List Action
receive_all json c [] now = (c, [])
receive_all json c (frame ∷ frames) now =
    let (next, result) = handle_event json c frame now in
    let (last, more) = receive_all json next frames now in (last, actions_of result ++ more)

unfoldable pub total_replay_bytes : List Envelope → ℕ
total_replay_bytes [] = 0
total_replay_bytes (frame ∷ frames) = replay_event_bytes frame + total_replay_bytes frames

-- What is still to come: the frames behind the buffer, up to the announced end, within both limits.
pub record IsRest (c : Client) (frames : List Envelope) : Type 0 where
  pub phase : c.state ≡ resuming
  pub stateless : c.resume_state_namespaces ≡ []
  pub buffered_so_far : Contiguous c.last_seq c.replay_buffer
  pub consecutive : Contiguous (c.last_seq + length c.replay_buffer) frames
  pub complete : c.last_seq + length c.replay_buffer + length frames ≡ c.replay_to
  pub fits : c.replay_to < 2 ^ 64
  pub events : c.replay_to ≤ c.last_seq + c.config.max_replay_events
  pub bytes : c.replay_bytes +ℤ pos (total_replay_bytes frames) ≤ℤ c.config.max_replay_bytes

deliver_all-actions :
    (c : Client) (es : List Envelope) → (deliver_all c es).1 ≡ map deliver_event es
unfolding deliver_all
deliver_all-actions c [] = refl
deliver_all-actions c (e ∷ es) =
    ap (◌∷◌ (deliver_event e))
      (deliver_all-actions (remember_event (record c { last_seq = e.seq }) e.seq e.id) es)

abbrev buffered : Client → Envelope → Client
buffered c frame = record c {
  replay_buffer = c.replay_buffer ++ frame ∷ [];
  replay_bytes = c.replay_bytes +ℤ pos (replay_event_bytes frame);
}

module _ (json : Json) (c : Client) (frame : Envelope) (frames : List Envelope) (now : ℕ)
    (h : IsRest c (frame ∷ frames)) where
  bytes_fit :
      ltb_ℤ (c.config.max_replay_bytes -ℤ c.replay_bytes) (pos (replay_event_bytes frame)) ≡ false
  unfolding total_replay_bytes ◌+ℤ◌ ◌-ℤ◌
  bytes_fit = ground (arith, h.bytes)

  seq_follows : frame.seq ≡ c.last_seq + length c.replay_buffer + 1
  seq_follows = h.consecutive.0

  reaches_replay : handle_event json c frame now ≡ replay_event c frame
  unfolding handle_event
  reaches_replay = ground (arith, h.phase, seq_follows)

  is_expected : nat_beq frame.seq (add_u64 (add_u64 c.last_seq (length c.replay_buffer)) 1) ≡ true
  is_expected = ground (arith, seq_follows, h.complete, h.fits)

  replay_event-next : replay_event c frame ≡ (
      if nat_beq frame.seq c.replay_to
      then finish_replay (buffered c frame)
      else done (buffered c frame) [])
  unfolding replay_event
  replay_event-next =
      ground (arith, is_expected, bytes_fit, seq_follows, h.complete, h.events, h.stateless)

  is_last : nat_beq frame.seq c.replay_to ≡ is_empty frames
  is_last = elim (Bool-cases (is_empty frames)) [
    | inl e ↦ ground (arith, e, seq_follows, h.complete)
    | inr e ↦ ground (arith, e, seq_follows, h.complete)
  ]

  handle_event-next :
      handle_event json c frame now
      ≡ (if is_empty frames then finish_replay (buffered c frame) else done (buffered c frame) [])
  handle_event-next = reaches_replay ∙ (rw (sym is_last) replay_event-next)

  buffered-IsRest : IsRest (buffered c frame) frames
  unfolding total_replay_bytes ◌+ℤ◌
  buffered-IsRest = record {
    phase = h.phase;
    stateless = h.stateless;
    buffered_so_far =
        Contiguous-append c.last_seq c.replay_buffer frame h.buffered_so_far seq_follows;
    consecutive =
        let shift : c.last_seq + length c.replay_buffer + 1
            ≡ c.last_seq + length (c.replay_buffer ++ frame ∷ []) =
          omega (arith, length-append {0} c.replay_buffer (frame ∷ [])) in
        subst (λ n. Contiguous n frames) shift h.consecutive.1;
    complete = omega (arith, h.complete, length-append {0} c.replay_buffer (frame ∷ []));
    fits = h.fits;
    events = h.events;
    bytes = ground (arith, h.bytes);
  }

finish_replay-ready :
    (c : Client)
    → Contiguous c.last_seq c.replay_buffer
    → ((finish_replay c).0.state ≡ ready)
      × ((finish_replay c).0.last_seq ≡ c.last_seq + length c.replay_buffer)
      × ((finish_replay c).1
          ≡ ok (map deliver_event c.replay_buffer ++ session_ready c.session_id ∷ []))
unfolding finish_replay
finish_replay-ready c h =
    ground (arith, deliver_all-actions c c.replay_buffer, deliver_all-Continues c c.replay_buffer h)

-- A resume without State ends well: from a RESUMING client with a consecutive buffer, receiving all the
-- frames that are still to come, one after the other, within both replay limits, leaves it READY at the
-- announced last sequence, and the actions are exactly the deliveries of the buffer and of the frames in
-- their order, then the report that the Session is ready.
pub receive_all-completes :
    (json : Json) (c : Client) (frame : Envelope) (frames : List Envelope) (now : ℕ)
    → IsRest c (frame ∷ frames)
    → let (last, actions) = receive_all json c (frame ∷ frames) now in
      (last.state ≡ ready)
      × (last.last_seq ≡ c.replay_to)
      × (actions
          ≡ map deliver_event (c.replay_buffer ++ frame ∷ frames)
            ++ session_ready c.session_id ∷ [])
unfolding receive_all
receive_all-completes json c frame [] now h =
    let next = handle_event-next json c frame [] now h in
    let after = buffered-IsRest json c frame [] now h in
    let end = finish_replay-ready (buffered c frame) after.buffered_so_far in
    rw next (
      end.0,
      omega (arith, end.1, after.complete),
      append-nil (actions_of (finish_replay (buffered c frame)).1) ∙ ap actions_of end.2,
    )
receive_all-completes json c frame (e ∷ es) now h =
    let next = handle_event-next json c frame (e ∷ es) now h in
    let rest =
      receive_all-completes json (buffered c frame) e es now
        (buffered-IsRest json c frame (e ∷ es) now h) in
    let actions = (receive_all json (buffered c frame) (e ∷ es) now).1 in
    rw next (
      rest.0,
      rest.1,
      subst (λ frames. actions ≡ map deliver_event frames ++ session_ready c.session_id ∷ [])
          (append_assoc c.replay_buffer (frame ∷ []) (e ∷ es)) rest.2,
    )
