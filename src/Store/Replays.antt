-- ===== src/Store/Replays.antt =====
-- The replay log: its sequences, and what a replay returns.
use kmtproto.Prelude.{
  insert, ap, nat_beq, not, Bool-cases, leb, ltb_ℤ, ◌-ℤ◌, ◌&&◌, sym, ℕ, ℤ, pos, ◌+ℤ◌, ◌+◌, ◌-◌, ◌≤◌,
  ◌<◌, ◌^◌, ◌≡◌, ◌⊎◌, inl, inr, refl, true, false, ltb, Text, List, [], ◌∷◌, ◌++◌, length,
  length-append, lookup-insert, text_eq, text_eq_iff, text_instance, subst, arith, if◌then◌else◌,
}
use kmtproto.Wire.{Envelope, Json, Fallible, fails, gives, Result, ok, err}
use kmtproto.Client.Ordering.{Contiguous, Contiguous-append}
use kmtproto.Store.{
  MemoryReplayStore, ReplayLimits, events_of, floor_of, current_seq, ids_of, collect, replay,
  appended_event, append,
}

-- The retained events of a session are consecutive and end at its current sequence; they begin at the floor, if
-- there is one, and at 1 otherwise.
pub record IsLog (s : MemoryReplayStore) (session_id : Text) : Type 0 where
  pub counted : ℕ
  pub consecutive : Contiguous counted (events_of s session_id)
  pub ends : counted + length (events_of s session_id) ≡ current_seq s session_id
  pub begins : (floor_of s session_id ≡ counted + 1) ⊎ ((floor_of s session_id ≡ 0) × (counted ≡ 0))
  pub fits : current_seq s session_id < 2 ^ 64

-- What the loop has collected: consecutive events behind the later of the two starts.
abbrev IsRange : ℕ → ℕ → ℕ → List Envelope → Type 0
IsRange after_seq through_seq n out =
    (out ≡ [])
    ⊎ ((n ≤ after_seq) × Contiguous after_seq out × (after_seq + length out ≤ through_seq))
    ⊎ ((after_seq ≤ n) × Contiguous n out × (n + length out ≤ through_seq))

abbrev CollectsRange : ℕ → ℕ → ℕ → Result (List Envelope) → Type 0
CollectsRange after_seq through_seq n (ok out) = IsRange after_seq through_seq n out
CollectsRange after_seq through_seq n (err e) = Unit

module _ (after_seq through_seq n : ℕ) (e : Envelope) (follows : e.seq ≡ n + 1) where
  IsRange-skip :
      (out : List Envelope)
      → (ltb after_seq e.seq && leb e.seq through_seq) ≡ false
      → IsRange after_seq through_seq (n + 1) out
      → IsRange after_seq through_seq n out
  IsRange-skip out outside (inl empty) = inl empty
  IsRange-skip out outside (inr (inl (low, run, fits))) = inr (inl (omega arith, run, fits))
  IsRange-skip out outside (inr (inr (high, run, fits))) =
      ground (arith, outside, high, fits, follows)

  IsRange-take :
      (out : List Envelope)
      → (ltb after_seq e.seq && leb e.seq through_seq) ≡ true
      → IsRange after_seq through_seq (n + 1) out
      → IsRange after_seq through_seq n (e ∷ out)
  IsRange-take out inside (inl empty) = inr (
      inr (
        ground (arith, inside, follows),
        (follows, subst (Contiguous (n + 1)) (sym empty) tt),
        ground (arith, inside, follows, empty),
      ))
  IsRange-take out inside (inr (inl (low, run, fits))) = ground (arith, inside, low, follows)
  IsRange-take out inside (inr (inr (high, run, fits))) =
      inr (inr (ground (arith, inside, follows), (follows, run), omega arith))

  CollectsRange-skip :
      (r : Result (List Envelope))
      → (ltb after_seq e.seq && leb e.seq through_seq) ≡ false
      → CollectsRange after_seq through_seq (n + 1) r
      → CollectsRange after_seq through_seq n r
  CollectsRange-skip (ok out) outside h = IsRange-skip out outside h
  CollectsRange-skip (err x) outside h = tt

  CollectsRange-take :
      (r : Result (List Envelope))
      → (ltb after_seq e.seq && leb e.seq through_seq) ≡ true
      → CollectsRange after_seq through_seq (n + 1) r
      → CollectsRange after_seq through_seq n (elim r [ err x ↦ err x | ok out ↦ ok (e ∷ out) ])
  CollectsRange-take (ok out) inside h = IsRange-take out inside h
  CollectsRange-take (err x) inside h = tt

Fallible-cases :
    {A : Type 0} (f : Fallible A) → ((t : Text) × (f ≡ fails t)) ⊎ ((a : A) × (f ≡ gives a))
Fallible-cases (fails t) = inl (t, refl)
Fallible-cases (gives a) = inr (a, refl)

collect-CollectsRange :
    (json : Json) (limits : ReplayLimits) (after_seq through_seq n : ℕ) (es : List Envelope)
    (total : ℤ)
    → Contiguous n es
    → CollectsRange after_seq through_seq n (collect json limits after_seq through_seq es total)
unfolding collect
collect-CollectsRange json limits after_seq through_seq n [] total h = inl refl
collect-CollectsRange json limits after_seq through_seq n (e ∷ es) total h =
    elim (Bool-cases (ltb after_seq e.seq && leb e.seq through_seq)) [
      | inr outside ↦
          rw (outside, CollectsRange, collect)
            (CollectsRange-skip after_seq through_seq n e h.0
              (collect json limits after_seq through_seq es total) outside
              (collect-CollectsRange json limits after_seq through_seq (n + 1) es total h.1))
      | inl inside ↦
          rw (inside, CollectsRange, collect)
            (elim (Fallible-cases (json.encode_envelope e)) [
              | inl (t, f) ↦ rw (f, CollectsRange) tt
              | inr (bytes, f) ↦
                  rw (f, CollectsRange)
                    (elim (Bool-cases (ltb_ℤ (limits.max_bytes -ℤ total) (pos (length bytes)))) [
                      | inl over ↦ rw (over, CollectsRange) tt
                      | inr within ↦
                          rw (within, CollectsRange)
                            (CollectsRange-take after_seq through_seq n e h.0
                              (collect json limits after_seq through_seq es
                                (total +ℤ pos (length bytes)))
                              inside
                              (collect-CollectsRange json limits after_seq through_seq (n + 1) es
                                (total +ℤ pos (length bytes)) h.1))
                    ])
            ])
    ]

Contiguous-empty : (n : ℕ) (out : List Envelope) → length out ≡ 0 → Contiguous n out
Contiguous-empty n [] h = tt
Contiguous-empty n (e ∷ out) h = ground (arith, h)

IsRange-exact :
    (after_seq through_seq n : ℕ) (out : List Envelope)
    → after_seq ≤ through_seq
    → (ltb after_seq through_seq && not (nat_beq (length out) (through_seq - after_seq))) ≡ false
    → IsRange after_seq through_seq n out
    → Contiguous after_seq out × (after_seq + length out ≡ through_seq)
IsRange-exact after_seq through_seq n out order exact (inl empty) = (
  Contiguous-empty after_seq out (ap length empty),
  ground (arith, order, exact, ap length empty),
)
IsRange-exact after_seq through_seq n out order exact (inr (inl (low, run, fits))) =
    (run, ground (arith, order, exact, fits))
IsRange-exact after_seq through_seq n out order exact (inr (inr (high, run, fits))) =
    let total : after_seq + length out ≡ through_seq = ground (arith, order, exact, fits, high) in
    let same : n ≡ after_seq = omega (arith, total, high, fits) in
    (subst (λ m. Contiguous m out) same run, total)

-- The events of a log behind the first bound and up to the second, as they stand in it.
abbrev pub in_range : ℕ → ℕ → List Envelope → List Envelope
in_range after_seq through_seq [] = []
in_range after_seq through_seq (e ∷ es) =
    if ltb after_seq e.seq && leb e.seq through_seq
    then e ∷ in_range after_seq through_seq es
    else in_range after_seq through_seq es

-- A result behind an event, if it is one.
taken :
    (e : Envelope) (out : List Envelope) (r : Result (List Envelope))
    → (elim r as (λ x. Result (List Envelope)) [ err x ↦ err x | ok rest ↦ ok (e ∷ rest) ]) ≡ ok out
    → (kept : List Envelope) × (r ≡ ok kept) × (out ≡ e ∷ kept)
taken e out (ok kept) h = (kept, refl, ground (arith, h))
taken e out (err x) h = ground (arith, h)

collect-in_range :
    (json : Json) (limits : ReplayLimits) (after_seq through_seq : ℕ) (es : List Envelope)
    (total : ℤ) (out : List Envelope)
    → collect json limits after_seq through_seq es total ≡ ok out
    → out ≡ in_range after_seq through_seq es
unfolding collect
collect-in_range json limits after_seq through_seq [] total out h = ground (arith, h)
collect-in_range json limits after_seq through_seq (e ∷ es) total out h =
    elim (Bool-cases (ltb after_seq e.seq && leb e.seq through_seq)) [
      | inr outside ↦ rw outside (
          collect-in_range json limits after_seq through_seq es total out
            (ground (arith, h, outside)))
      | inl inside ↦ elim (Fallible-cases (json.encode_envelope e)) [
        | inl (t, f) ↦ ground (arith, h, inside, f)
        | inr (bytes, f) ↦
            let (kept, more, from) =
              taken e out
                (collect json limits after_seq through_seq es (total +ℤ pos (length bytes)))
                (ground (arith, h, inside, f)) in
            rw (inside, from)
              (ap (λ l. e ∷ l)
                (collect-in_range json limits after_seq through_seq es (total +ℤ pos (length bytes))
                  kept more))
      ]
    ]

-- From a consistent log, a replay that succeeds returns exactly the events of the log after the first bound up to
-- the second, unchanged and in their order: consecutive, as many as the range is long.
pub replay-exact :
    (json : Json) (s : MemoryReplayStore) (session_id : Text) (after_seq through_seq : ℕ)
    (limits : ReplayLimits) (out : List Envelope)
    → IsLog s session_id
    → replay json s session_id after_seq through_seq limits ≡ ok out
    → (out ≡ in_range after_seq through_seq (events_of s session_id))
      × Contiguous after_seq out
      × (after_seq + length out ≡ through_seq)
unfolding replay
replay-exact json s session_id after_seq through_seq limits out log e =
    let collected : collect json limits after_seq through_seq (events_of s session_id) (pos 0)
        ≡ ok out =
      ground (arith, e) in
    let order : after_seq ≤ through_seq = ground (arith, e) in
    let exact : (ltb after_seq through_seq && not (nat_beq (length out) (through_seq - after_seq)))
        ≡ false =
      ground (arith, e, collected) in
    let (run, total) = IsRange-exact after_seq through_seq log.counted out order exact (
      subst (CollectsRange after_seq through_seq log.counted) collected (
        collect-CollectsRange json limits after_seq through_seq log.counted (events_of s session_id)
          (pos 0) log.consecutive)) in
    (
      collect-in_range json limits after_seq through_seq (events_of s session_id) (pos 0) out
          collected,
      run,
      total,
    )

-- A store that differs in this session's log, as its readers see it.
IsLog-extend :
    (s next : MemoryReplayStore) (session_id : Text) (e : Envelope)
    → IsLog s session_id
    → current_seq s session_id + 1 < 2 ^ 64
    → e.seq ≡ current_seq s session_id + 1
    → events_of next session_id ≡ events_of s session_id ++ e ∷ []
    → floor_of next session_id ≡ floor_of s session_id
    → current_seq next session_id ≡ current_seq s session_id + 1
    → IsLog next session_id
IsLog-extend s next session_id e log room follows events floor current = record {
  counted = log.counted;
  consecutive = rw events (
      Contiguous-append log.counted (events_of s session_id) e log.consecutive
        (omega (arith, follows, log.ends)));
  ends =
      rw (events, current)
        (omega (arith, log.ends, length-append {0} (events_of s session_id) (e ∷ [])));
  begins = rw floor log.begins;
  fits = rw current room;
}

pub text_eq_self : (t : Text) → text_eq t t ≡ true
text_eq_self t = ground (arith, text_eq_iff t t)

appended-IsLog :
    (s : MemoryReplayStore) (session_id event_id : Text) (e : Envelope)
    → IsLog s session_id
    → e.seq ≡ current_seq s session_id + 1
    → nat_beq (current_seq s session_id) (2 ^ 64 - 1) ≡ false
    → IsLog
        (record s {
          events = insert session_id (events_of s session_id ++ e ∷ []) s.events;
          currents = insert session_id (current_seq s session_id + 1) s.currents;
          ids = insert session_id (event_id ∷ ids_of s session_id) s.ids;
        })
        session_id
unfolding events_of current_seq floor_of
appended-IsLog s session_id event_id e log follows room =
    let es = events_of s session_id ++ e ∷ [] in
    let seq = current_seq s session_id + 1 in
    IsLog-extend s
      (record s {
        events = insert session_id es s.events;
        currents = insert session_id seq s.currents;
        ids = insert session_id (event_id ∷ ids_of s session_id) s.ids;
      })
      session_id e log (ground (arith, room, log.fits)) follows
      (ground (arith, lookup-insert session_id session_id es s.events, text_eq_self session_id))
      refl
      (ground (arith, lookup-insert session_id session_id seq s.currents, text_eq_self session_id))

-- Appending an event to a consistent log keeps it consistent, whatever the outcome.
pub append-IsLog :
    (json : Json) (s : MemoryReplayStore) (session_id event_id event_type content : Text)
    (timestamp : ℤ)
    → IsLog s session_id
    → IsLog (append json s session_id event_id event_type content timestamp).0 session_id
unfolding append
append-IsLog json s session_id event_id event_type content timestamp log =
    let e =
      appended_event json (current_seq s session_id + 1) session_id event_id event_type content
        timestamp in
    let next : MemoryReplayStore = record s {
      events = insert session_id (events_of s session_id ++ e ∷ []) s.events;
      currents = insert session_id (current_seq s session_id + 1) s.currents;
      ids = insert session_id (event_id ∷ ids_of s session_id) s.ids;
    } in
    ground (arith, log, appended-IsLog s session_id event_id e log refl)
