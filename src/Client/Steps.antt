-- ===== src/Client/Steps.antt =====
-- The methods of ClientProtocol that change its state, as one step function, and runs of them: the
-- mutex serialises concurrent callers into such a sequence.
use kmtproto.Prelude.{ℕ, Text, List, [], ◌∷◌, ◌++◌}
use kmtproto.Wire.{Envelope, Json, Result, ok, err}
use kmtproto.Client.Types.{Client, Action, Outcome, done}
use kmtproto.Client.Connect.{
  begin_connect, transport_connected, start_session, resume_session, resume_with_state, disconnect,
}
use kmtproto.Client.Requests.{query_state, enqueue_send, retry_pending, send_ping, check_heartbeat}
use kmtproto.Client.Incoming.{handle_incoming}

pub data Call : Type 0 where
  begins_connect retries_pending : Call
  transport_connects disconnects resumes checks_heartbeat : ℕ → Call
  starts_session : ℕ → Text → Call
  resumes_with_state : ℕ → List Text → Call
  queries_state : Text → Text → List Text → Call
  enqueues_send : Text → Text → Call
  sends_ping : ℕ → Text → Call
  receives : ℕ → Envelope → Call

-- An error comes with no actions.
abbrev pub actions_of : Result (List Action) → List Action
actions_of (ok actions) = actions
actions_of (err e) = []

module _ (json : Json) where
  unfoldable pub step : Client → ℕ → Call → Outcome
  step c now begins_connect = done (begin_connect c) []
  step c now retries_pending = retry_pending c
  step c now (transport_connects g) = transport_connected c g
  step c now (disconnects g) = disconnect c g
  step c now (resumes g) = resume_session json c g now
  step c now (checks_heartbeat g) = check_heartbeat c g now
  step c now (starts_session g name) = start_session json c g name
  step c now (resumes_with_state g namespaces) = resume_with_state json c g namespaces now
  step c now (queries_state id namespace ids) = query_state json c id namespace ids now
  step c now (enqueues_send id content) = enqueue_send json c id content now
  step c now (sends_ping g id) = send_ping json c g id now
  step c now (receives g frame) = handle_incoming json c g frame now

  -- The states and the actions of a run; each call comes with the time at which it is made.
  unfoldable pub run : Client → List (ℕ × Call) → Client × List Action
  unfolding step
  run c [] = (c, [])
  run c ((now, call) ∷ calls) =
      let (c', result) = step c now call in
      let (last, more) = run c' calls in (last, actions_of result ++ more)
