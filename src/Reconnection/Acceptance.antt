-- ===== src/Reconnection/Acceptance.antt =====
-- A client that asked for the events behind its last one is READY behind the last event of the batch.
use kmtproto.Prelude.{
  ℕ, ℤ, suc, Bool, ◌+◌, ◌-◌, ◌<◌, ◌≤◌, ◌^◌, ◌≡◌, refl, sym, ap, ◌∙◌, subst, false, pos, ◌+ℤ◌, ◌≤ℤ◌,
  nat_beq, Text, List, [], ◌∷◌, ◌++◌, none, map, length, false, text_eq_iff, add_u64, arith,
}
use kmtproto.Wire.{Envelope, Json, WelcomePayload, resumed, resuming, ready, decode_payload, ok}
use kmtproto.Client.{
  Client, Action, check, done, deliver_event, session_ready, handle_welcome, welcome_in,
  welcome_resumed, accept_replay, state_sync_error, reset_connection_transient,
}
use kmtproto.Client.Ordering.{Contiguous}
use kmtproto.Client.Completion.{IsRest, receive_all, receive_all-completes, total_replay_bytes}
use kmtproto.Server.Ranges.{Follows}
use kmtproto.Reconnection.{receive_batch}

-- The client as it is when it has asked: RESUMING the frame's Session, without State.
pub record IsAsking (c : Client) (frame : Envelope) : Type 0 where
  pub phase : c.state ≡ resuming
  pub stateless : c.resume_state_namespaces ≡ []
  pub own : frame.session_id ≡ c.session_id

-- The payload of a WELCOME for a resume without State.
abbrev pub resumed_payload : ℤ → ℕ → ℕ → WelcomePayload
resumed_payload server_time resume_from replay_to = record {
  mode = resumed;
  server_time = server_time;
  resume_from = resume_from;
  replay_to = replay_to;
  state_sync = none;
  accepted_capabilities = [];
}

-- encoding/json reads back what it wrote of such a payload.
pub record ReadsWelcome (json : Json) (strict : Bool) : Type 0 where
  pub reads :
      (server_time : ℤ) (resume_from replay_to : ℕ)
      → let p = resumed_payload server_time resume_from replay_to in
        decode_payload json json.decode_welcome strict (json.encode_welcome p) ≡ ok p

-- Room for the whole replay at the client.
pub record HasRoom (c : Client) (events : List Envelope) : Type 0 where
  pub count : length events ≤ c.config.max_replay_events
  pub bytes : pos (total_replay_bytes events) ≤ℤ c.config.max_replay_bytes

pub Follows-Contiguous :
    (session_id : Text) (n : ℕ) (events : List Envelope)
    → Follows session_id (suc n) events
    → Contiguous n events
Follows-Contiguous session_id n [] h = tt
Follows-Contiguous session_id n (e ∷ rest) (kind, owner, here, later) = (
  omega arith,
  let next : suc n ≡ n + 1 = omega arith in
      subst (λ m. Contiguous m rest) next (Follows-Contiguous session_id (suc n) rest later),
)

abbrev opened : Client → ℕ → Client
opened c replay_to = record c {
  replay_to = replay_to;
  replay_buffer = [];
  replay_bytes = pos 0;
  resume_events_complete = nat_beq replay_to c.last_seq;
  gap_resume = false;
}

module _ (json : Json) (c : Client) (frame first : Envelope) (p : WelcomePayload)
    (asking : IsAsking c frame) where
  pub handle_welcome-resumed :
      decode_payload json json.decode_welcome c.config.strict_validation first.payload ≡ ok p
      → handle_welcome json c first ≡ welcome_resumed c first p
  unfolding handle_welcome welcome_in
  handle_welcome-resumed e =
      ap (λ r. check c r (λ q. welcome_in c.state c first q)) e
      ∙ ap (λ st. welcome_in st c first p) asking.phase

  pub welcome_resumed-accepts :
      first.session_id ≡ c.session_id
      → p.mode ≡ resumed
      → p.state_sync ≡ none
      → p.resume_from ≡ add_u64 c.last_seq 1
      → c.last_seq ≤ p.replay_to
      → welcome_resumed c first p ≡ accept_replay c p.replay_to
  unfolding welcome_resumed state_sync_error
  welcome_resumed-accepts own mode stateless from through =
      ground (arith, asking.stateless, text_eq_iff first.session_id c.session_id)

accept_replay-opens :
    (c : Client) (replay_to : ℕ)
    → c.last_seq < replay_to
    → replay_to - c.last_seq ≤ c.config.max_replay_events
    → accept_replay c replay_to ≡ done (opened c replay_to) []
unfolding accept_replay
accept_replay-opens c replay_to behind few = ground arith

accept_replay-ends :
    (c : Client) (replay_to : ℕ)
    → replay_to ≡ c.last_seq
    → c.resume_state_namespaces ≡ []
    → accept_replay c replay_to
      ≡ done
          (record (reset_connection_transient (opened c replay_to)) { state = ready })
          (session_ready c.session_id ∷ [])
unfolding accept_replay
accept_replay-ends c replay_to same stateless = ground (arith, same, stateless)

zero-add : (n : ℕ) → pos 0 +ℤ pos n ≡ pos n
unfolding ◌+ℤ◌
zero-add n = ground arith

-- What the client is left with, and what it reports.
pub record IsBack (c last : Client) (events : List Envelope) (actions : List Action) : Type 0 where
  pub up : last.state ≡ ready
  pub caught_up : last.last_seq ≡ c.last_seq + length events
  pub reported : actions ≡ map deliver_event events ++ (session_ready c.session_id ∷ [])

module _ (json : Json) (c : Client) (frame : Envelope) (now : ℕ) (asking : IsAsking c frame) where
  opened-IsRest :
      (events : List Envelope)
      → Contiguous c.last_seq events
      → c.last_seq + length events < 2 ^ 64
      → HasRoom c events
      → IsRest (opened c (c.last_seq + length events)) events
  opened-IsRest events ordered near room = record {
    phase = asking.phase;
    stateless = asking.stateless;
    buffered_so_far = tt;
    consecutive = subst (λ m. Contiguous m events) (omega arith) ordered;
    complete = omega arith;
    fits = near;
    events = (let few = room.count in omega arith);
    bytes =
        subst (λ z. z ≤ℤ c.config.max_replay_bytes) (sym (zero-add (total_replay_bytes events)))
          room.bytes;
  }

  pub receive_batch-IsBack :
      (first : Envelope) (events : List Envelope)
      → handle_welcome json c first ≡ accept_replay c (c.last_seq + length events)
      → Contiguous c.last_seq events
      → c.last_seq + length events < 2 ^ 64
      → HasRoom c events
      → let (last, actions) = receive_batch json c (first ∷ events) now in
        IsBack c last events actions
  unfolding receive_batch receive_all
  receive_batch-IsBack first [] e ordered near room =
      let e' = e ∙ accept_replay-ends c (c.last_seq + 0) (omega arith) asking.stateless in
      rw e' (record { up = refl; caught_up = omega arith; reported = refl })
  receive_batch-IsBack first (event ∷ rest) e ordered near room =
      let few = room.count in
      let e' =
        e
        ∙ accept_replay-opens c (c.last_seq + length (event ∷ rest)) (omega arith) (omega arith) in
      let (up, reached, reported) =
        receive_all-completes json (opened c (c.last_seq + length (event ∷ rest))) event rest now
          (opened-IsRest (event ∷ rest) ordered near room) in
      rw e' (record { up = up; caught_up = reached; reported = reported })
