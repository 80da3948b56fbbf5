-- ===== src/Client/Fencing.antt =====
-- Connection generations: what a caller of a replaced connection can do.
use kmtproto.Prelude.{ℕ, ◌≡◌, ◌≢◌, Option, none, some, arith}
use kmtproto.Wire.{Json, err, stale_connection}
use kmtproto.Client.{
  Client, Call, begins_connect, retries_pending, transport_connects, disconnects, resumes,
  checks_heartbeat, starts_session, resumes_with_state, queries_state, enqueues_send, sends_ping,
  receives, step, transport_connected, disconnect, check_heartbeat, start_session, resume_session,
  resume_with_state, send_ping, handle_incoming,
}

-- The generation that a call names.
abbrev pub call_generation : Call → Option ℕ
call_generation begins_connect = none
call_generation retries_pending = none
call_generation (transport_connects g) = some g
call_generation (disconnects g) = some g
call_generation (resumes g) = some g
call_generation (checks_heartbeat g) = some g
call_generation (starts_session g name) = some g
call_generation (resumes_with_state g namespaces) = some g
call_generation (queries_state id namespace ids) = none
call_generation (enqueues_send id content) = none
call_generation (sends_ping g id) = some g
call_generation (receives g frame) = some g

-- A call that names another generation than the current one fails with ErrStaleConnection and
-- leaves the client as it was.
pub step-stale_generation :
    (json : Json) (c : Client) (now : ℕ) (call : Call) (g : ℕ)
    → call_generation call ≡ some g
    → g ≢ c.generation
    → step json c now call ≡ (c, err stale_connection)
unfolding step transport_connected disconnect check_heartbeat start_session resume_session
    resume_with_state send_ping handle_incoming
step-stale_generation json c now begins_connect g named h = ground arith
step-stale_generation json c now call g named h = ground arith
