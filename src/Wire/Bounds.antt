-- ===== src/Wire/Bounds.antt =====
-- limits.go: the configured bounds, their defaults, and what the constructors do with zero and
-- negative values.
use kmtproto.Prelude.{ℕ, ℤ, pos, Bool, ◌||◌, ◌*◌, ◌^◌, leb_ℤ, is_zero, if◌then◌else◌, lit}
use kmtproto.Wire.Errors.{Result, refuse_if, plain}

abbrev pub default_max_replay_events : ℕ
default_max_replay_events = 4096

abbrev pub default_max_replay_bytes : ℤ
default_max_replay_bytes = pos (16 * 2 ^ 20)

abbrev pub default_event_identity_window : ℕ
default_event_identity_window = 4096

abbrev pub default_max_state_cache_objects : ℤ
default_max_state_cache_objects = pos 4096

abbrev pub default_max_state_cache_bytes : ℤ
default_max_state_cache_bytes = pos (16 * 2 ^ 20)

pub record Limits : Type 0 where
  pub max_frame_size : ℤ
  pub max_payload_size : ℤ
  pub max_id_length : ℤ
  pub max_session_id_length : ℤ
  pub max_error_message_length : ℤ
  pub max_capabilities : ℤ
  pub max_capability_name_length : ℤ
  pub max_capability_versions : ℤ
  pub max_client_name_length : ℤ
  pub max_event_type_length : ℤ
  pub max_state_namespace_length : ℤ
  pub max_state_object_id_length : ℤ
  pub max_state_data_size : ℤ
  pub max_state_object_size : ℤ
  pub max_state_query_objects : ℤ
  pub max_state_snapshot_objects : ℤ
  pub max_state_snapshot_bytes : ℤ
  pub max_state_sync_namespaces : ℤ

unfoldable pub default_limits : Limits
default_limits = record {
  max_frame_size = pos (2 ^ 20);
  max_payload_size = pos (768 * 2 ^ 10);
  max_id_length = pos 128;
  max_session_id_length = pos 128;
  max_error_message_length = pos 1024;
  max_capabilities = pos 32;
  max_capability_name_length = pos 64;
  max_capability_versions = pos 16;
  max_client_name_length = pos 128;
  max_event_type_length = pos 128;
  max_state_namespace_length = pos 64;
  max_state_object_id_length = pos 256;
  max_state_data_size = pos (512 * 2 ^ 10);
  max_state_object_size = pos (640 * 2 ^ 10);
  max_state_query_objects = pos 128;
  max_state_snapshot_objects = pos 128;
  max_state_snapshot_bytes = pos (768 * 2 ^ 10);
  max_state_sync_namespaces = pos 32;
}

abbrev pub or_default : ℤ → ℤ → ℤ
or_default value default = if is_zero value then default else value

unfoldable pub normalize_limits : Limits → Limits
unfolding default_limits
normalize_limits l =
    let d = default_limits in
    record {
      max_frame_size = or_default l.max_frame_size d.max_frame_size;
      max_payload_size = or_default l.max_payload_size d.max_payload_size;
      max_id_length = or_default l.max_id_length d.max_id_length;
      max_session_id_length = or_default l.max_session_id_length d.max_session_id_length;
      max_error_message_length = or_default l.max_error_message_length d.max_error_message_length;
      max_capabilities = or_default l.max_capabilities d.max_capabilities;
      max_capability_name_length =
          or_default l.max_capability_name_length d.max_capability_name_length;
      max_capability_versions = or_default l.max_capability_versions d.max_capability_versions;
      max_client_name_length = or_default l.max_client_name_length d.max_client_name_length;
      max_event_type_length = or_default l.max_event_type_length d.max_event_type_length;
      max_state_namespace_length =
          or_default l.max_state_namespace_length d.max_state_namespace_length;
      max_state_object_id_length =
          or_default l.max_state_object_id_length d.max_state_object_id_length;
      max_state_data_size = or_default l.max_state_data_size d.max_state_data_size;
      max_state_object_size = or_default l.max_state_object_size d.max_state_object_size;
      max_state_query_objects = or_default l.max_state_query_objects d.max_state_query_objects;
      max_state_snapshot_objects =
          or_default l.max_state_snapshot_objects d.max_state_snapshot_objects;
      max_state_snapshot_bytes = or_default l.max_state_snapshot_bytes d.max_state_snapshot_bytes;
      max_state_sync_namespaces =
          or_default l.max_state_sync_namespaces d.max_state_sync_namespaces;
    }

-- `limit <= 0`
abbrev pub is_nonpositive : ℤ → Bool
is_nonpositive a = leb_ℤ a (pos 0)

unfoldable pub any_nonpositive : Limits → Bool
any_nonpositive l =
    is_nonpositive l.max_frame_size
    || is_nonpositive l.max_payload_size
    || is_nonpositive l.max_id_length
    || is_nonpositive l.max_session_id_length
    || is_nonpositive l.max_error_message_length
    || is_nonpositive l.max_capabilities
    || is_nonpositive l.max_capability_name_length
    || is_nonpositive l.max_capability_versions
    || is_nonpositive l.max_client_name_length
    || is_nonpositive l.max_event_type_length
    || is_nonpositive l.max_state_namespace_length
    || is_nonpositive l.max_state_object_id_length
    || is_nonpositive l.max_state_data_size
    || is_nonpositive l.max_state_object_size
    || is_nonpositive l.max_state_query_objects
    || is_nonpositive l.max_state_snapshot_objects
    || is_nonpositive l.max_state_snapshot_bytes
    || is_nonpositive l.max_state_sync_namespaces

unfoldable pub validate_limits : Limits → Result (Unit {0})
unfolding any_nonpositive
validate_limits l =
    refuse_if (any_nonpositive l) (plain (lit "kmtproto: protocol limits must be positive"))
