-- ===== src/Store/Pruning.antt =====
-- Pruning the replay log.
use kmtproto.Prelude.{
  sym, ap, leb, ℕ, ◌+◌, ◌-◌, ◌≤◌, ◌<◌, ◌^◌, ◌≡◌, inl, inr, refl, ltb, nat_beq, not, ◌&&◌,
  Bool-cases, Text, List, [], ◌∷◌, length, lookup-insert, text_instance, if◌then◌else◌, subst,
  arith,
}
use kmtproto.Wire.{Envelope}
use kmtproto.Client.Ordering.{Contiguous}
use kmtproto.Store.{MemoryReplayStore, events_of, floor_of, current_seq, drop_before, prune_before}
use kmtproto.Store.Replays.{IsLog, text_eq_self}

-- Nothing is dropped from events that begin late enough.
drop_before_late :
    (first n : ℕ) (es : List Envelope) → Contiguous n es → first ≤ n + 1 → drop_before first es ≡ es
unfolding drop_before
drop_before_late first n [] h late = refl
drop_before_late first n (e ∷ es) h late = ground (arith, h.0, late)

drop_before-Contiguous :
    (m n : ℕ) (es : List Envelope)
    → Contiguous n es
    → n ≤ m
    → m ≤ n + length es
    → Contiguous m (drop_before (m + 1) es) × (m + length (drop_before (m + 1) es) ≡ n + length es)
unfolding drop_before
drop_before-Contiguous m n [] h low high = (tt, omega (arith, low, high))
drop_before-Contiguous m n (e ∷ es) h low high = elim (Bool-cases (ltb e.seq (m + 1))) [
  | inl before ↦
      let rest =
        drop_before-Contiguous m (n + 1) es h.1 (ground (arith, h.0, before))
          (omega (arith, high)) in
      rw (before, drop_before) (rest.0, omega (arith, rest.1))
  | inr kept ↦
      let same : n ≡ m = ground (arith, h.0, kept, low) in
      rw (kept, drop_before) (subst (λ k. Contiguous k (e ∷ es)) same h, omega (arith, same))
]

clamped : ℕ → ℕ → ℕ
clamped current first_available =
    if not (nat_beq current (2 ^ 64 - 1)) && ltb (current + 1) first_available
    then current + 1
    else first_available

module _ (s : MemoryReplayStore) (session_id : Text) (first_available : ℕ)
    (log : IsLog s session_id) (fits : first_available < 2 ^ 64) where
  next : MemoryReplayStore
  next = prune_before s session_id first_available

  first : ℕ
  first = clamped (current_seq s session_id) first_available

  first_bounded : first ≤ current_seq s session_id + 1
  unfolding first clamped
  first_bounded = ground (arith, fits, log.fits)

  next_events : events_of next session_id ≡ drop_before first (events_of s session_id)
  unfolding next first clamped prune_before events_of
  next_events = ground (
    arith,
    text_eq_self session_id,
    lookup-insert session_id session_id
        (drop_before (clamped (current_seq s session_id) first_available) (events_of s session_id))
        s.events,
  )

  next_floor :
      floor_of next session_id
      ≡ (if ltb (floor_of s session_id) first then first else floor_of s session_id)
  unfolding next first clamped prune_before floor_of
  next_floor = ground (
    arith,
    text_eq_self session_id,
    lookup-insert session_id session_id (clamped (current_seq s session_id) first_available)
        s.floors,
  )

  next_current : current_seq next session_id ≡ current_seq s session_id
  unfolding next prune_before current_seq
  next_current = refl

  keeps_all : first ≤ log.counted + 1 → IsLog next session_id
  keeps_all late =
      let same : events_of next session_id ≡ events_of s session_id =
        rw next_events
          (drop_before_late first log.counted (events_of s session_id) log.consecutive late) in
      record {
        counted = log.counted;
        consecutive = rw same log.consecutive;
        ends = rw (same, next_current) log.ends;
        begins = ground (arith, next_floor, log.begins, late);
        fits = rw next_current log.fits;
      }

  drops_some : log.counted + 1 < first → IsLog next session_id
  drops_some early =
      let m = first - 1 in
      let d =
        drop_before-Contiguous m log.counted (events_of s session_id) log.consecutive
          (omega (arith, early)) (omega (arith, early, first_bounded, log.ends)) in
      let step : m + 1 ≡ first = omega (arith, early) in
      let kept : drop_before (m + 1) (events_of s session_id) ≡ events_of next session_id =
        rw step (sym next_events) in
      record {
        counted = m;
        consecutive = subst (Contiguous m) kept d.0;
        ends = rw next_current (omega (arith, ap length kept, d.1, log.ends));
        begins = inl (ground (arith, next_floor, log.begins, early));
        fits = rw next_current log.fits;
      }

  -- Pruning a consistent log, at a 64-bit sequence, keeps it consistent.
  pub prune_before-IsLog : IsLog (prune_before s session_id first_available) session_id
  unfolding next
  prune_before-IsLog = elim (Bool-cases (leb first (log.counted + 1))) [
    | inl late ↦ keeps_all (ground (arith, late))
    | inr early ↦ drops_some (ground (arith, early))
  ]
