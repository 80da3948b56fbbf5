-- ===== src/Client/Ordering/Replay.antt =====
-- EVENT frames: the replay buffer and the live stream.
use kmtproto.Prelude.{
  ℕ, zero, suc, ◌+◌, ◌<◌, ◌^◌, ◌≡◌, inl, inr, List, [], ◌∷◌, ◌++◌, ap, refl, length, length-append,
  arith, false, subst, sym, true, leb, Bool-cases, Text, ℤ, pos, ◌+ℤ◌,
}
use mathlib.Core.List.{append-nil}
use kmtproto.Wire.{Envelope, Json, resuming}
use kmtproto.Client.{
  Client, Action, deliver_all, session_ready, is_resuming, remember_event, finish_replay,
  stop_replay, replay_event, live_event, known_event, handle_event, replay_event_bytes,
}
use kmtproto.Client.Ordering.Defs.{
  delivered, delivered-append, count_up, Contiguous, IsOrdered, Orderly,
}

pub Contiguous-append :
    (n : ℕ) (es : List Envelope) (e : Envelope)
    → Contiguous n es
    → e.seq ≡ n + length es + 1
    → Contiguous n (es ++ e ∷ [])
Contiguous-append n [] e h s = (omega arith, tt)
Contiguous-append n (x ∷ es) e h s = (h.0, Contiguous-append (n + 1) es e h.1 (omega arith))

-- Delivering a contiguous buffer delivers exactly its sequences.
pub deliver_all-Continues :
    (c : Client) (es : List Envelope)
    → Contiguous c.last_seq es
    → ((deliver_all c es).0.last_seq ≡ c.last_seq + length es)
      × (delivered (deliver_all c es).1 ≡ count_up (c.last_seq + 1) (length es))
unfolding deliver_all remember_event delivered
deliver_all-Continues c [] h = (omega arith, refl)
deliver_all-Continues c (e ∷ es) h =
    let next = remember_event (record c { last_seq = e.seq }) e.seq e.id in
    let rest = deliver_all-Continues next es (subst (λ n. Contiguous n es) (sym h.0) h.1) in
    (omega (arith, rest.0, h.0), ground (arith, rest.1, h.0))

pub length-count_up : (from n : ℕ) → length (count_up from n) ≡ n
length-count_up from zero = refl
length-count_up from (suc n) = ap suc (length-count_up (from + 1) n)

pub delivered-ready :
    (xs : List Action) (id : Text) → delivered (xs ++ session_ready id ∷ []) ≡ delivered xs
unfolding delivered
delivered-ready xs id = rw delivered-append (append-nil _)

-- Finishing a contiguous replay delivers it whole.
pub finish_replay-Orderly : (c : Client) → IsOrdered c → Orderly c (finish_replay c)
unfolding finish_replay
finish_replay-Orderly c v =
    let d = deliver_all-Continues c c.replay_buffer v.contiguous in
    let actions = (deliver_all c c.replay_buffer).1 in
    ground (
      arith,
      d,
      delivered-ready actions c.session_id,
      ap length d.1,
      length-count_up (c.last_seq + 1) (length c.replay_buffer),
      v.fits,
      v.idle,
    )

module _ (c : Client) (frame : Envelope) (v : IsOrdered c) where
  still_resuming : is_resuming c.state ≡ true → c.state ≡ resuming
  still_resuming h = ground arith

  buffered-IsOrdered :
      (bytes : ℤ)
      → frame.seq ≡ c.last_seq + length c.replay_buffer + 1
      → frame.seq < 2 ^ 64
      → c.state ≡ resuming
      → IsOrdered (record c { replay_buffer = c.replay_buffer ++ frame ∷ []; replay_bytes = bytes })
  buffered-IsOrdered bytes e h r = record {
    contiguous = Contiguous-append c.last_seq c.replay_buffer frame v.contiguous e;
    fits = omega (arith, length-append {0} c.replay_buffer (frame ∷ []));
    idle = inl r;
  }

  pub replay_event-Orderly :
      c.last_seq < frame.seq
      → frame.seq < 2 ^ 64
      → c.state ≡ resuming
      → Orderly c (replay_event c frame)
  unfolding replay_event stop_replay delivered
  replay_event-Orderly above h r =
      let bytes = c.replay_bytes +ℤ pos (replay_event_bytes frame) in
      let buffered = record c {
        replay_buffer = c.replay_buffer ++ frame ∷ [];
        replay_bytes = bytes;
      } in
      ground (
        arith,
        v.contiguous,
        v.fits,
        v.idle,
        buffered-IsOrdered bytes,
        finish_replay-Orderly buffered,
      )

  pub live_event-Orderly :
      (json : Json) (now : ℕ)
      → frame.seq < 2 ^ 64
      → is_resuming c.state ≡ false
      → c.last_seq < frame.seq
      → Orderly c (live_event json c frame now)
  unfolding live_event delivered
  live_event-Orderly json now h idle above = ground (arith, v.fits, v.idle)

  pub known_event-Orderly : Orderly c (known_event c frame)
  unfolding known_event delivered
  known_event-Orderly = ground (arith, v.contiguous, v.fits, v.idle)

  pub handle_event-Orderly :
      (json : Json) (now : ℕ) → frame.seq < 2 ^ 64 → Orderly c (handle_event json c frame now)
  unfolding handle_event delivered
  handle_event-Orderly json now h = elim (Bool-cases (leb frame.seq c.last_seq)) [
    | inl old ↦ ground (arith, old, known_event-Orderly, v.contiguous, v.fits, v.idle)
    | inr later ↦ elim (Bool-cases (is_resuming c.state)) [
      | inl r ↦ ground (arith, later, r, replay_event-Orderly, v.contiguous, v.fits, v.idle)
      | inr r ↦ ground (arith, later, r, live_event-Orderly json now, v.contiguous, v.fits, v.idle)
    ]
  ]
