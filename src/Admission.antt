-- ===== src/Admission.antt =====
-- server.go: ServerAdmission, the gate before the processor on one connection after another. `handle` is one
-- critical section, then the processor without the mutex, then `apply_result` in another critical section.
pub mod Moves
use kmtproto.Prelude.{
  ℕ, nat_beq, add_u64, not, Bool, true, false, ◌&&◌, ◌||◌, Text, [], ◌∷◌, Option, none, some,
  is_empty, text_eq, lit, if◌then◌else◌,
}
use kmtproto.Wire.{
  FrameType, hello, ping, send, state_query, resume, error, Envelope, Json, Err, stale_connection,
  invalid_state, ok, err, protocol_violation,
}
use kmtproto.Capability.{SessionCapabilities, no_capabilities}
use kmtproto.Validate.{validate_frame}
use kmtproto.Outbound.{OutboundQueue, new_outbound_queue, close}
use kmtproto.Server.{
  Ending, returns, errors, Services, ServerConfig, ServerState, HandleResult, M, enqueue_error,
  invoke_server_process, is_error,
}

pub data AdmissionState : Type 0 where
  closed awaiting_handshake ready resuming : AdmissionState

unfoldable pub admission_state_text : AdmissionState → Text
unfolding lit
admission_state_text closed = lit "CLOSED"
admission_state_text awaiting_handshake = lit "AWAITING_HANDSHAKE"
admission_state_text ready = lit "READY"
admission_state_text resuming = lit "RESUMING"

-- A queue is created together with its generation and belongs to no other, so the generation also tells
-- whether a queue is the current one; `connected` tells whether there is one.
pub record ServerAdmission : Type 0 where
  pub generation : ℕ
  pub connected : Bool
  pub state : AdmissionState
  pub session_id : Text
  pub capabilities : SessionCapabilities
  pub handshake : Bool

abbrev pub new_server_admission : ServerAdmission
new_server_admission = record {
  generation = 0;
  connected = false;
  state = closed;
  session_id = [];
  capabilities = no_capabilities;
  handshake = false;
}

-- Closing the old queue, and the next generation with an empty queue.
unfoldable pub replace :
    ServerAdmission
    → Option OutboundQueue
    → ServerAdmission × (Option OutboundQueue × OutboundQueue)
replace a old = (
  record {
    generation = add_u64 a.generation 1;
    connected = true;
    state = awaiting_handshake;
    session_id = [];
    capabilities = no_capabilities;
    handshake = false;
  },
  (elim old [ none ↦ none | some q ↦ some (close q) ], new_outbound_queue),
)

abbrev pub in_closed : AdmissionState → Bool
in_closed closed = true
in_closed _ = false

abbrev pub in_awaiting : AdmissionState → Bool
in_awaiting awaiting_handshake = true
in_awaiting _ = false

abbrev pub in_ready : AdmissionState → Bool
in_ready ready = true
in_ready _ = false

abbrev pub in_resuming : AdmissionState → Bool
in_resuming resuming = true
in_resuming _ = false

abbrev opens : FrameType → Bool
opens hello = true
opens resume = true
opens _ = false

abbrev continues : FrameType → Bool
continues ping = true
continues send = true
continues state_query = true
continues resume = true
continues _ = false

abbrev is_resume : FrameType → Bool
is_resume resume = true
is_resume _ = false

unfoldable pub allowed : AdmissionState → FrameType → Bool
allowed state type =
    is_error type || (in_awaiting state && opens type) || (in_ready state && continues type)

-- What the first critical section of `handle` decides: an error, a protocol violation, or processing. A frame
-- that is not valid is processed, and answered there, without a look at the state.
pub data Entry : Type 0 where
  rejected : Err → Entry
  violates passes : Entry

abbrev pub shut : ServerAdmission → ServerAdmission
shut a = record a { state = closed; capabilities = no_capabilities; handshake = false }

-- The state of the gate once a frame is let through.
unfoldable pub admit : ServerAdmission → FrameType → ServerAdmission
admit a type = record a {
  handshake = a.handshake || (in_awaiting a.state && not (is_error type));
  state = if in_ready a.state && is_resume type then resuming else a.state;
}

unfoldable pub enter : ServerAdmission → ℕ → Bool → Envelope → ServerAdmission × Entry
unfolding allowed admit text_eq
enter a generation valid frame =
    if not (nat_beq generation a.generation) || not a.connected
    then (a, rejected stale_connection)
    else if in_closed a.state
    then (a, rejected invalid_state)
    else if not valid
    then (a, passes)
    else if not (allowed a.state frame.type)
        || (in_ready a.state && not (text_eq frame.session_id a.session_id))
        || (in_awaiting a.state && a.handshake)
    then (shut a, violates)
    else (admit a frame.type, passes)

unfoldable pub apply_result : ServerAdmission → ℕ → HandleResult → ServerAdmission
apply_result a generation result =
    let rested = record a { handshake = false } in
    if not (nat_beq generation a.generation)
    then a
    else if in_closed a.state
    then rested
    else if result.close
    then record rested { state = closed; capabilities = no_capabilities }
    else if result.abandon_session
    then record rested {
      state = awaiting_handshake;
      session_id = [];
      capabilities = no_capabilities;
    }
    else if not (is_empty result.ready_session_id)
    then record rested {
      state = ready;
      session_id = result.ready_session_id;
      capabilities = result.capabilities;
    }
    else if in_resuming a.state
    then record rested { state = closed; capabilities = no_capabilities }
    else rested

-- `Handle`, with the processor's state; the queue in it is the one of the generation.
module _ {W : Type 0} (json : Json) (config : ServerConfig) (services : Services W) where
  unfoldable pub is_valid : Envelope → Bool
  is_valid frame = elim (validate_frame json frame config.limits config.strict) [
    | ok u ↦ true
    | err e ↦ false
  ]

  abbrev settle_result :
      ServerAdmission
      → ℕ
      → ServerState W × Ending (Unit {0})
      → (ServerAdmission × ServerState W) × Ending (Unit {0})
  settle_result a generation (s, out) = ((apply_result a generation s.result, s), out)

  abbrev after_entry :
      ℕ
      → Envelope
      → ServerState W
      → ServerAdmission
      → Entry
      → (ServerAdmission × ServerState W) × Ending (Unit {0})
  after_entry generation frame s a (rejected e) = ((a, s), errors e)
  after_entry generation frame s a passes =
      settle_result a generation (invoke_server_process json config services frame s)
  after_entry generation frame s a violates =
      let (s', out) =
        enqueue_error json config services frame.session_id frame.id protocol_violation
          (lit "frame is invalid for server connection state") false s in
      ((a, s'), out)

  unfoldable pub handle :
      ServerAdmission
      → ℕ
      → Envelope
      → ServerState W
      → (ServerAdmission × ServerState W) × Ending (Unit {0})
  unfolding is_valid enter apply_result invoke_server_process enqueue_error
  handle a generation frame s =
      let (a', entry) = enter a generation (is_valid frame) frame in
      after_entry generation frame s a' entry
