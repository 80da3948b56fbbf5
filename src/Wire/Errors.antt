-- ===== src/Wire/Errors.antt =====
-- error.go: the standard codes, their dispositions, and the error values of the library.
use kmtproto.Prelude.{
  Bool, true, false, Text, [], ◌++◌, Option, none, some, lit, if◌then◌else◌, is_empty,
}

pub data ErrorCode : Type 0 where
  bad_request unsupported_version unsupported_feature invalid_capability invalid_state_version
        unauthorized invalid_session not_found rate_limited sync_required state_sync_required
        state_unavailable internal protocol_violation :
      ErrorCode
  other_code : Text → ErrorCode

pub record ErrorBehavior : Type 0 where
  pub retryable : Bool
  pub retryability_fixed : Bool
  pub close_connection : Bool
  pub abandon_session : Bool
  pub full_sync_required : Bool

abbrev plain_behavior : ErrorBehavior
plain_behavior = record {
  retryable = false;
  retryability_fixed = true;
  close_connection = false;
  abandon_session = false;
  full_sync_required = false;
}

abbrev closing : ErrorBehavior
closing = record plain_behavior { close_connection = true }

abbrev free : ErrorBehavior
free = record plain_behavior { retryability_fixed = false }

unfoldable pub behavior_for_error_code : ErrorCode → ErrorBehavior × Bool
behavior_for_error_code bad_request = (plain_behavior, true)
behavior_for_error_code unsupported_version = (closing, true)
behavior_for_error_code unsupported_feature = (closing, true)
behavior_for_error_code invalid_capability = (plain_behavior, true)
behavior_for_error_code invalid_state_version = (plain_behavior, true)
behavior_for_error_code unauthorized = (closing, true)
behavior_for_error_code invalid_session = (record plain_behavior { abandon_session = true }, true)
behavior_for_error_code not_found = (plain_behavior, true)
behavior_for_error_code rate_limited = (record plain_behavior { retryable = true }, true)
behavior_for_error_code sync_required = (record plain_behavior { full_sync_required = true }, true)
behavior_for_error_code state_sync_required = (closing, true)
behavior_for_error_code state_unavailable = (record closing { retryable = true }, true)
behavior_for_error_code internal = (free, true)
behavior_for_error_code protocol_violation = (closing, true)
behavior_for_error_code (other_code t) = (free, false)

unfoldable pub error_code_text : ErrorCode → Text
error_code_text bad_request = lit "BAD_REQUEST"
error_code_text unsupported_version = lit "UNSUPPORTED_VERSION"
error_code_text unsupported_feature = lit "UNSUPPORTED_FEATURE"
error_code_text invalid_capability = lit "INVALID_CAPABILITY"
error_code_text invalid_state_version = lit "INVALID_STATE_VERSION"
error_code_text unauthorized = lit "UNAUTHORIZED"
error_code_text invalid_session = lit "INVALID_SESSION"
error_code_text not_found = lit "NOT_FOUND"
error_code_text rate_limited = lit "RATE_LIMITED"
error_code_text sync_required = lit "SYNC_REQUIRED"
error_code_text state_sync_required = lit "STATE_SYNC_REQUIRED"
error_code_text state_unavailable = lit "STATE_UNAVAILABLE"
error_code_text internal = lit "INTERNAL"
error_code_text protocol_violation = lit "PROTOCOL_VIOLATION"
error_code_text (other_code t) = t

-- ErrStateStale, ErrStateConflict, ErrStateIdentityMismatch
pub data StateError : Type 0 where
  state_stale state_conflict state_identity_mismatch : StateError

-- ErrReplayUnavailable, ErrReplayLimitExceeded, ErrSequenceExhausted, ErrStateSnapshotLimitExceeded,
-- ErrSessionExists, ErrOutboundClosed
pub data StoreError : Type 0 where
  replay_unavailable replay_limit_exceeded sequence_exhausted state_snapshot_limit_exceeded
        session_exists outbound_closed :
      StoreError

-- The only causes that the source attaches are state errors.
pub record ProtocolError : Type 0 where
  pub code : ErrorCode
  pub message : Text
  pub ref_id : Text
  pub retryable : Bool
  pub close : Bool
  pub cause : Option StateError

-- A Go `error`: a protocol error, a sentinel, `errors.New`, or `fmt.Errorf` with `%w`.
pub data Err : Type 0 where
  protocol : ProtocolError → Err
  state : StateError → Err
  store : StoreError → Err
  plain : Text → Err
  wrapped : Text → Err → Err

pub data Result {ℓ} (A : Type ℓ) : Type ℓ where
  ok : A → Result A
  err : Err → Result A

-- `if err != nil { return err }`
abbrev pub ◌>>=◌ {κ ℓ} : {X : Type κ} {Y : Type ℓ} (r : Result X) (next : X → Result Y) → Result Y
err e >>= next = err e
ok x >>= next = next x

abbrev pub ◌>>◌ {ℓ} : {Y : Type ℓ} (r : Result (Unit {0})) (next : Result Y) → Result Y
err e >> next = err e
ok x >> next = next

infixl 5 ◌>>=◌ ◌>>◌
-- An early `return err` under a condition.
abbrev pub refuse_if : Bool → Err → Result (Unit {0})
refuse_if true e = err e
refuse_if false e = ok tt

unfoldable pub protocol_error : ErrorCode → Text → ProtocolError
protocol_error code message =
    let behavior = (behavior_for_error_code code).0 in
    record {
      code = code;
      message = message;
      ref_id = [];
      retryable = behavior.retryable;
      close = behavior.close_connection;
      cause = none;
    }

-- `NewProtocolError(code, "message")` as an `error`
unfoldable pub new_protocol_error : ErrorCode → Text → Err
unfolding protocol_error
new_protocol_error code message = protocol (protocol_error code message)

unfoldable pub new_protocol_error_with_cause : ErrorCode → Text → StateError → Err
unfolding protocol_error
new_protocol_error_with_cause code message cause =
    protocol (record (protocol_error code message) { cause = some cause })

abbrev sentinel : Text → Err
sentinel message = protocol (record {
  code = protocol_violation;
  message = message;
  ref_id = [];
  retryable = false;
  close = false;
  cause = none;
})

-- ErrStaleConnection, ErrInvalidState, ErrProtocolConflict, ErrIdentityExpired
unfoldable pub stale_connection : Err
stale_connection = sentinel (lit "stale connection generation")

unfoldable pub invalid_state : Err
invalid_state = sentinel (lit "invalid state transition")

unfoldable pub protocol_conflict : Err
protocol_conflict = sentinel (lit "sequence identity conflict")

unfoldable pub identity_expired : Err
identity_expired = sentinel (lit "event identity is outside the retained verification window")

state_error_text : StateError → Text
state_error_text state_stale = lit "kmtproto: stale state version"
state_error_text state_conflict = lit "kmtproto: state version conflict"
state_error_text state_identity_mismatch = lit "kmtproto: state identity mismatch"

store_error_text : StoreError → Text
store_error_text replay_unavailable = lit "kmtproto: replay range unavailable"
store_error_text replay_limit_exceeded = lit "kmtproto: replay range exceeds configured limits"
store_error_text sequence_exhausted = lit "kmtproto: event sequence exhausted"
store_error_text state_snapshot_limit_exceeded =
    lit "kmtproto: State snapshot exceeds configured limits"
store_error_text session_exists = lit "kmtproto: session already exists"
store_error_text outbound_closed = lit "kmtproto: outbound queue closed"

unfoldable pub protocol_error_text : ProtocolError → Text
protocol_error_text e =
    if is_empty e.ref_id
    then lit "kmtproto: " ++ (error_code_text e.code ++ (lit ": " ++ e.message))
    else lit "kmtproto: "
      ++ (error_code_text e.code ++ (lit " (" ++ (e.ref_id ++ (lit "): " ++ e.message))))

-- err.Error()
unfoldable pub error_text : Err → Text
unfolding protocol_error_text error_code_text state_error_text store_error_text
error_text (protocol e) = protocol_error_text e
error_text (state e) = state_error_text e
error_text (store e) = store_error_text e
error_text (plain t) = t
error_text (wrapped prefix e) = prefix ++ error_text e

-- payload.go: ErrorPayload
pub record ErrorPayload : Type 0 where
  pub code : ErrorCode
  pub message : Text
  pub ref_id : Text
  pub retryable : Bool

-- `errors.Is` against the sentinels of store.go: the one that the error is or wraps.
unfoldable pub store_cause : Err → Option StoreError
store_cause (store e) = some e
store_cause (wrapped t e) = store_cause e
store_cause (protocol e) = none
store_cause (state e) = none
store_cause (plain t) = none

-- `errors.As` against *ProtocolError.
unfoldable pub as_protocol : Err → Option ProtocolError
as_protocol (protocol e) = some e
as_protocol (wrapped t e) = as_protocol e
as_protocol (store e) = none
as_protocol (state e) = none
as_protocol (plain t) = none
