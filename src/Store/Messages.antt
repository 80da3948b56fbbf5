-- ===== src/Store/Messages.antt =====
-- What MemoryDedupStore promises: each message has a status of its own, which no call for another message
-- touches.
use kmtproto.Prelude.{
  ℕ, ℤ, pos, ◌+ℤ◌, ltb_ℤ, Text, List, [], ◌∷◌, ◌&&◌, Bool, true, false, Option, none, some, lookup,
  text_eq, text_instance, if◌then◌else◌,
}
use kmtproto.Wire.{Envelope, DedupState, processing, completed}
use kmtproto.Store.{MemoryDedupStore, MemoryDedupEntry, DedupRecord, ClaimResult, claimed, existing}
use kmtproto.Store.Claims.{DedupCall, claims, completes, aborts}

-- Never claimed or given up; claimed; completed, and kept until an instant.
pub data Status : Type 0 where
  absent : Status
  open_as : DedupRecord → Status
  kept_as : DedupRecord → ℤ → Status

abbrev pub status_by : DedupState → MemoryDedupEntry → Status
status_by processing e = open_as e.saved
status_by completed e = kept_as e.saved e.expires_at

abbrev pub status_in : Option MemoryDedupEntry → Status
status_in none = absent
status_in (some e) = status_by e.saved.state e

unfoldable pub status_of : MemoryDedupStore → Text → Status
status_of s key = status_in (lookup key s.records)

abbrev pub fresh_claim : Text → Status
fresh_claim fingerprint =
    open_as (record { state = processing; fingerprint = fingerprint; ack = none })

-- A claim of the message itself.
abbrev pub claim_status : ℕ → Text → Status → Status
claim_status now fingerprint absent = fresh_claim fingerprint
claim_status now fingerprint (open_as first) = open_as first
claim_status now fingerprint (kept_as first until) =
    if ltb_ℤ (pos now) until then kept_as first until else fresh_claim fingerprint

abbrev pub claim_answer : ℕ → Status → ClaimResult
claim_answer now absent = claimed
claim_answer now (open_as first) = existing first
claim_answer now (kept_as first until) = if ltb_ℤ (pos now) until then existing first else claimed

abbrev pub complete_status : ℤ → ℕ → Option Envelope → Status → Status
complete_status ttl now (some ack) (open_as first) =
    kept_as (record { state = completed; fingerprint = first.fingerprint; ack = some ack })
      (pos now +ℤ ttl)
complete_status ttl now (some ack) absent = absent
complete_status ttl now (some ack) (kept_as first until) = kept_as first until
complete_status ttl now none status = status

abbrev pub abort_status : Status → Status
abort_status (open_as first) = absent
abort_status absent = absent
abort_status (kept_as first until) = kept_as first until

-- One call, for a message that it is about or not.
abbrev pub call_status : ℤ → Bool → DedupCall → Status → Status
call_status ttl false call status = status
call_status ttl true (claims now session_id msg_id fingerprint) status =
    claim_status now fingerprint status
call_status ttl true (completes now session_id msg_id ack) status =
    complete_status ttl now ack status
call_status ttl true (aborts session_id msg_id) status = abort_status status

abbrev pub session_of : DedupCall → Text
session_of (claims now session_id msg_id fingerprint) = session_id
session_of (completes now session_id msg_id ack) = session_id
session_of (aborts session_id msg_id) = session_id

abbrev pub message_of : DedupCall → Text
message_of (claims now session_id msg_id fingerprint) = msg_id
message_of (completes now session_id msg_id ack) = msg_id
message_of (aborts session_id msg_id) = msg_id

-- The specification: the calls for other messages are skipped.
unfoldable pub status_after : ℤ → Text → Text → List DedupCall → Status → Status
unfolding text_eq
status_after ttl session_id msg_id [] status = status
status_after ttl session_id msg_id (call ∷ calls) status =
    status_after ttl session_id msg_id calls (
      call_status ttl (text_eq (session_of call) session_id && text_eq (message_of call) msg_id)
        call status)
