-- ===== src/Server/Starting.antt =====
-- server.go: NewServerProtocol. The collaborators are arguments of the model, so they are never nil.
use kmtproto.Prelude.{
  ℤ, pos, ltb_ℤ, leb_ℤ, is_zero, nat_beq, ◌||◌, Option, none, some, lit, if◌then◌else◌,
}
use kmtproto.Wire.{
  normalize_limits, validate_limits, default_max_replay_events, default_max_replay_bytes, Result,
  ok, plain, refuse_if, ◌>>◌,
}
use kmtproto.Capability.{validate_registry}
use kmtproto.State.{validate_implemented_registry}
use kmtproto.Server.Types.{ServerConfig}
use kmtproto.Server.Stored.{wrap}

-- The zero values replaced.
unfoldable pub completed_config : ServerConfig → ServerConfig
completed_config c = record c {
  limits = normalize_limits c.limits;
  max_replay_events =
      if nat_beq c.max_replay_events 0 then default_max_replay_events else c.max_replay_events;
  max_replay_bytes =
      if is_zero c.max_replay_bytes then default_max_replay_bytes else c.max_replay_bytes;
}

-- The retention is what a deduplication store reports that implements DedupRetentionReporter.
unfoldable pub new_server_protocol : ServerConfig → Option ℤ → Result ServerConfig
unfolding completed_config
new_server_protocol given retention =
    let c = completed_config given in
    do
      validate_limits c.limits
      wrap (lit "kmtproto: invalid server capabilities: ")
          (validate_registry c.capabilities c.limits)
      wrap (lit "kmtproto: invalid server capabilities: ")
          (validate_implemented_registry c.capabilities)
      refuse_if (ltb_ℤ c.max_replay_bytes (pos 0))
          (plain (lit "kmtproto: MaxReplayBytes must be positive"))
      refuse_if
          (leb_ℤ c.session_resume_ttl (pos 0)
            || leb_ℤ c.replay_ttl (pos 0)
            || leb_ℤ c.dedup_ttl (pos 0)
            || leb_ℤ c.client_retry_ttl (pos 0))
          (plain (lit "kmtproto: TTL values must be positive"))
      refuse_if (ltb_ℤ c.dedup_ttl c.client_retry_ttl || ltb_ℤ c.dedup_ttl c.session_resume_ttl)
          (plain (lit "kmtproto: DedupTTL must cover ClientRetryTTL and SessionResumeTTL"))
      refuse_if (ltb_ℤ c.replay_ttl c.session_resume_ttl)
          (plain (lit "kmtproto: ReplayTTL must cover SessionResumeTTL"))
      elim retention [
        | none ↦ ok tt
        | some kept ↦ refuse_if (ltb_ℤ kept c.client_retry_ttl || ltb_ℤ kept c.session_resume_ttl) (
            plain (
              lit "kmtproto: dedup store retention must cover ClientRetryTTL and SessionResumeTTL"))
      ]
      ok c
