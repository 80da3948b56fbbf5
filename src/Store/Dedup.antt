-- ===== src/Store/Dedup.antt =====
-- store.go: MemoryDedupStore.
use kmtproto.Prelude.{
  ℕ, ℤ, pos, ◌+ℤ◌, ltb_ℤ, Bool, true, false, not, ◌||◌, Text, [], ◌∷◌, ◌++◌, Option, none, some,
  Map, lookup, insert, delete, text_instance, lit, if◌then◌else◌,
}
use kmtproto.Wire.{Envelope, DedupState, processing, completed, Result, ok, err, plain}

-- types.go: DedupRecord; a fingerprint is 32 bytes.
pub record DedupRecord : Type 0 where
  pub state : DedupState
  pub fingerprint : Text
  pub ack : Option Envelope

pub record MemoryDedupEntry : Type 0 where
  pub saved : DedupRecord
  pub expires_at : ℤ

pub record MemoryDedupStore : Type 0 where
  pub ttl : ℤ
  pub records : Map Text MemoryDedupEntry

abbrev pub new_memory_dedup_store : ℤ → MemoryDedupStore
new_memory_dedup_store ttl = record { ttl = ttl; records = [] }

unfoldable pub dedup_key : Text → Text → Text
dedup_key session_id msg_id = session_id ++ 0 ∷ msg_id

abbrev pub is_processing : DedupState → Bool
is_processing processing = true
is_processing completed = false

pub data ClaimResult : Type 0 where
  claimed : ClaimResult
  existing : DedupRecord → ClaimResult

abbrev pub claimed_entry : MemoryDedupStore → ℕ → Text → MemoryDedupEntry
claimed_entry s now fingerprint = record {
  saved = record { state = processing; fingerprint = fingerprint; ack = none };
  expires_at = pos now +ℤ s.ttl;
}

unfoldable pub claim : MemoryDedupStore → ℕ → Text → Text → Text → MemoryDedupStore × ClaimResult
unfolding dedup_key lookup insert delete
claim s now session_id msg_id fingerprint =
    let key = dedup_key session_id msg_id in
    let entry = claimed_entry s now fingerprint in
    elim (lookup key s.records) [
      | none ↦ (record s { records = insert key entry s.records }, claimed)
      | some old ↦
          if is_processing old.saved.state || ltb_ℤ (pos now) old.expires_at
          then (s, existing old.saved)
          else (record s { records = insert key entry (delete key s.records) }, claimed)
    ]

abbrev pub completed_entry : MemoryDedupStore → ℕ → MemoryDedupEntry → Envelope → MemoryDedupEntry
completed_entry s now old ack = record {
  saved = record { state = completed; fingerprint = old.saved.fingerprint; ack = some ack };
  expires_at = pos now +ℤ s.ttl;
}

unfoldable pub complete :
    MemoryDedupStore → ℕ → Text → Text → Option Envelope → MemoryDedupStore × Result (Unit {0})
unfolding dedup_key lookup insert
complete s now session_id msg_id none = (s, err (plain (lit "kmtproto: nil ACK")))
complete s now session_id msg_id (some ack) =
    let key = dedup_key session_id msg_id in
    elim (lookup key s.records) [
      | none ↦ (s, err (plain (lit "kmtproto: message is not claimed")))
      | some old ↦
          if not (is_processing old.saved.state)
          then (s, err (plain (lit "kmtproto: message is not claimed")))
          else (record s { records = insert key (completed_entry s now old ack) s.records }, ok tt)
    ]

unfoldable pub abort : MemoryDedupStore → Text → Text → MemoryDedupStore
unfolding dedup_key lookup delete
abort s session_id msg_id =
    let key = dedup_key session_id msg_id in
    elim (lookup key s.records) [
      | none ↦ s
      | some old ↦
          if is_processing old.saved.state then record s { records = delete key s.records } else s
    ]
