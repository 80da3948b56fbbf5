-- ===== src/Store/Openings.antt =====
-- MemorySessionRepository: a Session that was created is found until it expires, and is not created twice.
use kmtproto.Prelude.{
  ℕ, ltb, nat_beq, ◌≡◌, sym, true, false, Text, text_eq, text_eq_iff, subst, none, some, insert,
  has_key, lookup-insert, has_key-lookup, text_instance, is_empty, arith, if◌then◌else◌,
}
use kmtproto.Wire.{ok, err, store, session_exists}
use kmtproto.Store.Sessions.{SessionState, MemorySessionRepository, create_session, lookup_session}

created :
    (r : MemorySessionRepository) (state : SessionState)
    → (create_session r state).1 ≡ ok tt
    → (is_empty state.session_id ≡ false)
      × ((create_session r state).0
          ≡ record { sessions = insert state.session_id state r.sessions })
unfolding create_session
created r state made = ground arith

-- The look-ups after an insertion, by the law of the map.
lookup_session-insert :
    (r : MemorySessionRepository) (state : SessionState) (id : Text) (now : ℕ)
    → lookup_session (record { sessions = insert state.session_id state r.sessions }) id now ≡ (
        if text_eq state.session_id id
        then (if ltb now state.expires_at then some state else none)
        else lookup_session r id now)
unfolding lookup_session
lookup_session-insert r state id now =
    ground (arith, lookup-insert state.session_id id state r.sessions)

create_session-again :
    (r : MemorySessionRepository) (state again : SessionState)
    → is_empty state.session_id ≡ false
    → again.session_id ≡ state.session_id
    → nat_beq again.expires_at 0 ≡ false
    → create_session (record { sessions = insert state.session_id state r.sessions }) again
      ≡ (record { sessions = insert state.session_id state r.sessions }, err (store session_exists))
unfolding create_session
create_session-again r state again named same live =
    let m = insert state.session_id state r.sessions in
    let there : has_key again.session_id m ≡ true = ground (
      arith,
      same,
      has_key-lookup state.session_id m,
      lookup-insert state.session_id state.session_id state r.sessions,
      text_eq_iff state.session_id state.session_id,
    ) in
    ground (arith, there, same, named, live)

-- After a Session was created: it is found as it was created until its expiry and no longer, creating its id
-- again with an expiry that is not zero fails with ErrSessionExists and changes nothing, and every other Session
-- is found as before.
pub create_session-lookup :
    (r : MemorySessionRepository) (state again : SessionState) (other : Text) (now : ℕ)
    → (create_session r state).1 ≡ ok tt
    → again.session_id ≡ state.session_id
    → nat_beq again.expires_at 0 ≡ false
    → text_eq other state.session_id ≡ false
    → (let after = (create_session r state).0 in
        (lookup_session after state.session_id now
          ≡ (if ltb now state.expires_at then some state else none))
        × (create_session after again ≡ (after, err (store session_exists)))
        × (lookup_session after other now ≡ lookup_session r other now))
create_session-lookup r state again other now made same live apart =
    let (named, e) = created r state made in
    let here = text_eq_iff state.session_id state.session_id in
    let there = text_eq_iff state.session_id other in
    let back = text_eq_iff other state.session_id in
    let mine = lookup_session-insert r state state.session_id now in
    let others = lookup_session-insert r state other now in
    let again_fails = create_session-again r state again named same live in
    subst
      (λ after.
        (lookup_session after state.session_id now
          ≡ (if ltb now state.expires_at then some state else none))
        × (create_session after again ≡ (after, err (store session_exists)))
        × (lookup_session after other now ≡ lookup_session r other now))
      (sym e) (ground (arith, mine, here), again_fails, ground (arith, others, there, back, apart))
