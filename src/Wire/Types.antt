-- ===== src/Wire/Types.antt =====
-- types.go and payload.go: the envelope, the frame types and the typed payloads. A string field is
-- its bytes; a `json.RawMessage` is its bytes too. A string that the code only compares with
-- constants (a frame type, a WELCOME mode, an ERROR code) is an enumeration of these constants with
-- one more constructor for every other string.
use kmtproto.Prelude.{
  ℕ, ℤ, Bool, Text, List, Option, Eq, ◌≡◌, ◌↔◌, ◌&&◌, arith, lit, text_eq, text_eq_iff,
  text_instance,
}

-- `unknown []` is the missing type.
pub data FrameType : Type 0 where
  hello welcome ping pong send ack event resume error state_query state_snapshot state_update :
      FrameType
  unknown : Text → FrameType

-- `string(e.Type)`
pub frame_type_text : FrameType → Text
frame_type_text hello = lit "HELLO"
frame_type_text welcome = lit "WELCOME"
frame_type_text ping = lit "PING"
frame_type_text pong = lit "PONG"
frame_type_text send = lit "SEND"
frame_type_text ack = lit "ACK"
frame_type_text event = lit "EVENT"
frame_type_text resume = lit "RESUME"
frame_type_text error = lit "ERROR"
frame_type_text state_query = lit "STATE_QUERY"
frame_type_text state_snapshot = lit "STATE_SNAPSHOT"
frame_type_text state_update = lit "STATE_UPDATE"
frame_type_text (unknown t) = t

abbrev pub wire_version_v2 : ℕ
wire_version_v2 = 2

-- `v` is a uint16, `seq` a uint64.
pub record Envelope : Type 0 where
  pub v : ℕ
  pub type : FrameType
  pub id : Text
  pub session_id : Text
  pub seq : ℕ
  pub timestamp : ℤ
  pub payload : Text

pub data ConnectionState : Type 0 where
  disconnected connecting connected handshaking resuming ready suspect : ConnectionState

pub data DedupState : Type 0 where
  processing completed : DedupState

pub data Mode : Type 0 where
  new_session resumed : Mode
  other_mode : Text → Mode

pub record CapabilityOffer : Type 0 where
  pub name : Text
  pub versions : List ℕ
  pub required : Bool

pub record NegotiatedCapability : Type 0 where
  pub name : Text
  pub version : ℕ

pub record StateObject : Type 0 where
  pub namespace : Text
  pub object_id : Text
  pub version : ℕ
  pub content : Text

pub record StateIdentity : Type 0 where
  pub namespace : Text
  pub object_id : Text

unfoldable pub identity_eq : StateIdentity → StateIdentity → Bool
identity_eq a b = text_eq a.namespace b.namespace && text_eq a.object_id b.object_id

pub identity_eq_iff : (a b : StateIdentity) → (identity_eq a b ≡ Bool.true) ↔ (a ≡ b)
unfolding identity_eq
identity_eq_iff a b =
    ground (arith, text_eq_iff a.namespace b.namespace, text_eq_iff a.object_id b.object_id)

instance abbrev pub identity_instance : Eq StateIdentity
identity_instance = record { beq = identity_eq; beq_iff = identity_eq_iff }

pub record HelloPayload : Type 0 where
  pub client_name : Text
  pub capabilities : List CapabilityOffer

-- A `*ResumeStateSync` is an optional list of namespaces.
pub record WelcomePayload : Type 0 where
  pub mode : Mode
  pub server_time : ℤ
  pub resume_from : ℕ
  pub replay_to : ℕ
  pub state_sync : Option (List Text)
  pub accepted_capabilities : List NegotiatedCapability

pub record PingPayload : Type 0 where
  pub ping_id : Text
  pub client_time : ℤ

pub record PongPayload : Type 0 where
  pub ping_id : Text
  pub client_time : ℤ
  pub server_time : ℤ

pub record EventPayload : Type 0 where
  pub event_type : Text
  pub content : Text

pub record ResumePayload : Type 0 where
  pub last_seq : ℕ
  pub state_sync : Option (List Text)

pub record StateQueryPayload : Type 0 where
  pub namespace : Text
  pub object_ids : List Text
