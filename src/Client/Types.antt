-- ===== src/Client/Types.antt =====
-- client.go, action.go: the state of the client and the actions that it returns.
use kmtproto.Prelude.{ℕ, ◌*◌, ◌^◌, ℤ, pos, sub_ℕ, Bool, true, false, Text, List, [], Option, Map}
unfoldable pub use kmtproto.Prelude.{add_u64, unix_milli}
use kmtproto.Wire.{
  Envelope, ConnectionState, connecting, connected, resuming, ready, suspect, CapabilityOffer,
  StateIdentity, StateObject, StateQueryPayload, Limits, ErrorPayload, Result, ok, err, Err,
  default_limits, default_max_replay_events, default_max_replay_bytes,
  default_event_identity_window, default_max_state_cache_objects, default_max_state_cache_bytes,
}
use kmtproto.Capability.{SessionCapabilities}
use kmtproto.State.{StateApplyResult}

-- The clock is an argument of the methods.
pub record ClientConfig : Type 0 where
  pub limits : Limits
  pub capabilities : List CapabilityOffer
  pub heartbeat_timeout : ℤ
  pub disconnect_grace : ℤ
  pub strict_validation : Bool
  pub max_replay_events : ℕ
  pub max_replay_bytes : ℤ
  pub event_identity_window : ℕ
  pub max_state_objects : ℤ
  pub max_state_bytes : ℤ

unfoldable pub default_client_config : ClientConfig
unfolding default_limits
default_client_config = record {
  limits = default_limits;
  capabilities = [];
  heartbeat_timeout = pos (20 * 10 ^ 9);
  disconnect_grace = pos (10 * 10 ^ 9);
  strict_validation = true;
  max_replay_events = default_max_replay_events;
  max_replay_bytes = default_max_replay_bytes;
  event_identity_window = default_event_identity_window;
  max_state_objects = default_max_state_cache_objects;
  max_state_bytes = default_max_state_cache_bytes;
}

pub record PendingPing : Type 0 where
  pub id : Text
  pub sent_at : ℕ
  pub generation : ℕ

pub record Client : Type 0 where
  pub config : ClientConfig
  pub state : ConnectionState
  pub generation : ℕ
  pub session_id : Text
  pub last_seq : ℕ
  pub event_ids : Map ℕ Text
  pub outbox : Map Text Envelope
  pub pending_ping : Option PendingPing
  pub suspect_at : ℕ
  pub capabilities : SessionCapabilities
  pub state_objects : Map StateIdentity StateObject
  pub state_bytes : ℤ
  pub state_queries : Map Text StateQueryPayload
  pub replay_to : ℕ
  pub replay_buffer : List Envelope
  pub replay_bytes : ℤ
  pub resume_state_namespaces : List Text
  pub resume_events_complete : Bool
  pub gap_resume : Bool

pub data Action : Type 0 where
  send_frame deliver_event : Envelope → Action
  acked session_ready : Text → Action
  state_changed : StateObject → StateApplyResult → Action
  protocol_error_action : ErrorPayload → Action
  full_sync_required_action close_connection : Text → Action

-- What a method leaves behind and what it returns: actions or an error.
abbrev pub Outcome : Type 0
Outcome = Client × Result (List Action)

abbrev pub done : Client → List Action → Outcome
done c actions = (c, ok actions)

abbrev pub fail : Client → Err → Outcome
fail c e = (c, err e)

-- `if err != nil { return nil, err }`, with the state as it is then.
abbrev pub check {ℓ} : {A : Type ℓ} → Client → Result A → (A → Outcome) → Outcome
check c (err e) k = (c, err e)
check c (ok a) k = k a

-- now.Sub(earlier)
abbrev pub elapsed : ℕ → ℕ → ℤ
elapsed now earlier = sub_ℕ now earlier

abbrev pub is_ready : ConnectionState → Bool
is_ready ready = true
is_ready _ = false

abbrev pub is_resuming : ConnectionState → Bool
is_resuming resuming = true
is_resuming _ = false

abbrev pub is_suspect : ConnectionState → Bool
is_suspect suspect = true
is_suspect _ = false

abbrev pub is_connecting : ConnectionState → Bool
is_connecting connecting = true
is_connecting _ = false

abbrev pub is_connected : ConnectionState → Bool
is_connected connected = true
is_connected _ = false
