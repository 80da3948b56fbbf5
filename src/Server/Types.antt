-- ===== src/Server/Types.antt =====
-- server.go: the processor's configuration, its collaborators and its state.
use kmtproto.Prelude.{ℕ, ℤ, pos, ◌*◌, ◌^◌, Bool, true, false, Text, List, [], Option, Map}
use kmtproto.Wire.{
  Envelope, StateObject, Limits, default_limits, default_max_replay_events,
  default_max_replay_bytes, Err,
}
use kmtproto.Capability.{SessionCapabilities, no_capabilities, CapabilityRegistry, empty_registry}
use kmtproto.State.{StateSnapshotLimits}
use kmtproto.Store.{SessionState, DedupRecord, ReplayLimits}
use kmtproto.Outbound.{OutboundQueue}

-- How a call ends: with a value, with an `error`, or with a panic.
pub data Ending {ℓ} (A : Type ℓ) : Type ℓ where
  returns : A → Ending A
  errors : Err → Ending A
  panics : Text → Ending A

-- FailAfterClaim, FailAfterApplication, FailAfterComplete
pub data FailPoint : Type 0 where
  after_claim after_application after_complete : FailPoint

-- The durations are in nanoseconds.
pub record ServerConfig : Type 0 where
  pub limits : Limits
  pub capabilities : CapabilityRegistry
  pub session_resume_ttl : ℤ
  pub replay_ttl : ℤ
  pub dedup_ttl : ℤ
  pub client_retry_ttl : ℤ
  pub strict : Bool
  pub max_replay_events : ℕ
  pub max_replay_bytes : ℤ

abbrev hours : ℕ → ℤ
hours n = pos (n * (3600 * 10 ^ 9))

unfoldable pub default_server_config : ServerConfig
default_server_config = record {
  limits = default_limits;
  capabilities = empty_registry;
  session_resume_ttl = hours 24;
  replay_ttl = hours 24;
  dedup_ttl = hours 24;
  client_retry_ttl = hours 1;
  strict = true;
  max_replay_events = default_max_replay_events;
  max_replay_bytes = default_max_replay_bytes;
}

-- What the processor calls that is not its own code: the clock, the identifier generators, SHA-256, the
-- stores, the application and the failure injector. They share a state `W`, which holds all that other
-- goroutines may see of them. A Go interface value that may be nil is an optional call. `await_flight` is
-- the wait of `waitForOriginal`: the context's error, or the ACK that the flight holds when it is done.
pub record Services (W : Type 0) : Type 0 where
  pub now : W → W × ℕ
  pub new_session_id : W → W × Ending Text
  pub new_frame_id : W → W × Ending Text
  pub sum256 : Text → Text
  pub create_session : SessionState → W → W × Ending (Unit {0})
  pub lookup_session : Text → ℕ → W → W × Ending (Option SessionState)
  pub claim : Text → Text → Text → W → W × Ending (Bool × Option DedupRecord)
  pub complete : Text → Text → Envelope → W → W × Ending (Unit {0})
  pub current_seq : Text → W → W × Ending ℕ
  pub replay : Text → ℕ → ℕ → ReplayLimits → W → W × Ending (List Envelope)
  pub append : Text → Text → Text → Text → ℤ → W → W × Ending Envelope
  pub handle_send : Text → Text → W → W × Ending (Unit {0})
  pub get_state : Option (Text → Text → W → W × Ending (Option StateObject))
  pub snapshot : Option (List Text → StateSnapshotLimits → W → W × Ending (List StateObject))
  pub inject : Option (FailPoint → W → W × Ending (Unit {0}))
  pub await_flight : Text → W → W × Ending (Option Envelope)

-- serverHandleResult
pub record HandleResult : Type 0 where
  pub ready_session_id : Text
  pub capabilities : SessionCapabilities
  pub close : Bool
  pub abandon_session : Bool

abbrev pub no_result : HandleResult
no_result = record {
  ready_session_id = [];
  capabilities = no_capabilities;
  close = false;
  abandon_session = false;
}

abbrev pub closed_result : HandleResult
closed_result = record no_result { close = true }

-- The caller's pointer to its flight: the key that it was entered under, and which flight it is.
pub record FlightRef : Type 0 where
  pub key : Text
  pub number : ℕ

-- A flight is told from those before and after it by its number, in the place of its address.
pub record SendFlight : Type 0 where
  pub number : ℕ
  pub fingerprint : Text
  pub callback_active : Bool
  pub ack : Option Envelope

-- A lane without its queue: a call that finds the lane running waits until the calls before it are done.
pub record StreamLane : Type 0 where
  pub callback_active : Bool
  pub users : ℕ

-- The state of one call: the processor's, the collaborators', the queue that the frame came with, and the
-- result that the call is going to return besides its error.
pub record ServerState (W : Type 0) : Type 0 where
  pub world : W
  pub outbound : OutboundQueue
  pub result : HandleResult
  pub flights : Map Text SendFlight
  pub lanes : Map Text StreamLane
  -- The number of the next flight, and the flights whose `done` is closed.
  pub next_flight : ℕ
  pub done : List ℕ
