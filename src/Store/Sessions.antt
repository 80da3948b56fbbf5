-- ===== src/Store/Sessions.antt =====
-- store.go: SessionState and MemorySessionRepository.
use kmtproto.Prelude.{
  ℕ, ltb, nat_beq, not, ◌||◌, Text, Option, none, some, Map, lookup, insert, has_key, text_instance,
  is_empty, lit, if◌then◌else◌,
}
use kmtproto.Wire.{Result, ok, err, plain, store, session_exists}
use kmtproto.Capability.{SessionCapabilities}

-- `ExpiresAt.IsZero()` is the instant 0.
pub record SessionState : Type 0 where
  pub session_id : Text
  pub expires_at : ℕ
  pub capabilities : SessionCapabilities

pub record MemorySessionRepository : Type 0 where
  pub sessions : Map Text SessionState

unfoldable pub create_session :
    MemorySessionRepository → SessionState → MemorySessionRepository × Result (Unit {0})
unfolding insert has_key
create_session r state =
    if is_empty state.session_id || nat_beq state.expires_at 0
    then (r, err (plain (lit "kmtproto: invalid session state")))
    else if has_key state.session_id r.sessions
    then (r, err (store session_exists))
    else (record { sessions = insert state.session_id state r.sessions }, ok tt)

unfoldable pub lookup_session : MemorySessionRepository → Text → ℕ → Option SessionState
unfolding lookup
lookup_session r session_id now = elim (lookup session_id r.sessions) [
  | none ↦ none
  | some state ↦ if not (ltb now state.expires_at) then none else some state
]
