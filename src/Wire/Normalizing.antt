-- ===== src/Wire/Normalizing.antt =====
-- Normalising limits: what the repeated calls of normalizeLimits come to.
use kmtproto.Prelude.{ℤ, ◌≡◌, arith}
use kmtproto.Wire.Bounds.{or_default, Limits, default_limits, normalize_limits}

or_default_twice : (v d : ℤ) → or_default (or_default v d) d ≡ or_default v d
or_default_twice v d = ground arith

-- Normalising twice is normalising once.
pub normalize_limits_idem :
    (l : Limits) → normalize_limits (normalize_limits l) ≡ normalize_limits l
unfolding normalize_limits
normalize_limits_idem l = λ i.
    let d = default_limits in
    record {
      max_frame_size = or_default_twice l.max_frame_size d.max_frame_size i;
      max_payload_size = or_default_twice l.max_payload_size d.max_payload_size i;
      max_id_length = or_default_twice l.max_id_length d.max_id_length i;
      max_session_id_length = or_default_twice l.max_session_id_length d.max_session_id_length i;
      max_error_message_length =
          or_default_twice l.max_error_message_length d.max_error_message_length i;
      max_capabilities = or_default_twice l.max_capabilities d.max_capabilities i;
      max_capability_name_length =
          or_default_twice l.max_capability_name_length d.max_capability_name_length i;
      max_capability_versions =
          or_default_twice l.max_capability_versions d.max_capability_versions i;
      max_client_name_length = or_default_twice l.max_client_name_length d.max_client_name_length i;
      max_event_type_length = or_default_twice l.max_event_type_length d.max_event_type_length i;
      max_state_namespace_length =
          or_default_twice l.max_state_namespace_length d.max_state_namespace_length i;
      max_state_object_id_length =
          or_default_twice l.max_state_object_id_length d.max_state_object_id_length i;
      max_state_data_size = or_default_twice l.max_state_data_size d.max_state_data_size i;
      max_state_object_size = or_default_twice l.max_state_object_size d.max_state_object_size i;
      max_state_query_objects =
          or_default_twice l.max_state_query_objects d.max_state_query_objects i;
      max_state_snapshot_objects =
          or_default_twice l.max_state_snapshot_objects d.max_state_snapshot_objects i;
      max_state_snapshot_bytes =
          or_default_twice l.max_state_snapshot_bytes d.max_state_snapshot_bytes i;
      max_state_sync_namespaces =
          or_default_twice l.max_state_sync_namespaces d.max_state_sync_namespaces i;
    }
