-- ===== src/Store/Claims.antt =====
-- Deduplication: one claim at a time, and the completed record for as long as it is retained.
use kmtproto.Prelude.{
  Option-cases, ℕ, pos, ◌+ℤ◌, ltb_ℤ, ◌≡◌, ◌≢◌, inl, inr, refl, Text, List, [], ◌∷◌, Option, none,
  some, lookup, delete, lookup-insert, lookup-delete, text_eq_iff, text_instance, nat_eq,
  if◌then◌else◌, arith,
}
use kmtproto.Wire.{Envelope, processing, completed}
use kmtproto.Store.{
  MemoryDedupStore, MemoryDedupEntry, dedup_key, claimed_entry, completed_entry, claimed, existing,
  claim, complete, abort,
}

pub data DedupCall : Type 0 where
  claims : ℕ → Text → Text → Text → DedupCall
  completes : ℕ → Text → Text → Option Envelope → DedupCall
  aborts : Text → Text → DedupCall

unfoldable pub dedup_run : MemoryDedupStore → List DedupCall → MemoryDedupStore
dedup_run s [] = s
dedup_run s (claims now session_id msg_id fingerprint ∷ calls) =
    dedup_run (claim s now session_id msg_id fingerprint).0 calls
dedup_run s (completes now session_id msg_id ack ∷ calls) =
    dedup_run (complete s now session_id msg_id ack).0 calls
dedup_run s (aborts session_id msg_id ∷ calls) = dedup_run (abort s session_id msg_id) calls

-- No call completes or aborts this key.
abbrev pub Unresolved : Text → List DedupCall → Type 0
Unresolved key [] = Unit
Unresolved key (claims now session_id msg_id fingerprint ∷ calls) = Unresolved key calls
Unresolved key (completes now session_id msg_id ack ∷ calls) =
    (dedup_key session_id msg_id ≢ key) × Unresolved key calls
Unresolved key (aborts session_id msg_id ∷ calls) =
    (dedup_key session_id msg_id ≢ key) × Unresolved key calls

module _ (s : MemoryDedupStore) (key : Text) (e : MemoryDedupEntry)
    (held : lookup key s.records ≡ some e) (open_claim : e.saved.state ≡ processing)
    (session_id msg_id : Text) where
  claim-keeps :
      (now : ℕ) (fingerprint : Text)
      → lookup key (claim s now session_id msg_id fingerprint).0.records ≡ some e
  unfolding claim
  claim-keeps now fingerprint =
      let k = dedup_key session_id msg_id in
      let entry = claimed_entry s now fingerprint in
      ground (
        arith,
        held,
        open_claim,
        text_eq_iff k key,
        lookup-insert k key entry s.records,
        lookup-insert k key entry (delete k s.records),
        lookup-delete k key s.records,
      )

  complete-keeps :
      (now : ℕ) (ack : Option Envelope)
      → dedup_key session_id msg_id ≢ key
      → lookup key (complete s now session_id msg_id ack).0.records ≡ some e
  unfolding complete
  complete-keeps now none other = held
  complete-keeps now (some ack) other =
      let k = dedup_key session_id msg_id in
      elim (Option-cases (lookup k s.records)) [
        | inl q ↦ ground (arith, q, held)
        | inr (old, q) ↦ ground (
          arith,
          q,
          held,
          other,
          text_eq_iff k key,
          lookup-insert k key (completed_entry s now old ack) s.records,
        )
      ]

  abort-keeps :
      dedup_key session_id msg_id ≢ key → lookup key (abort s session_id msg_id).records ≡ some e
  unfolding abort
  abort-keeps other =
      let k = dedup_key session_id msg_id in
      ground (arith, held, open_claim, other, text_eq_iff k key, lookup-delete k key s.records)

dedup_run-keeps :
    (s : MemoryDedupStore) (key : Text) (e : MemoryDedupEntry) (calls : List DedupCall)
    → lookup key s.records ≡ some e
    → e.saved.state ≡ processing
    → Unresolved key calls
    → lookup key (dedup_run s calls).records ≡ some e
unfolding dedup_run
dedup_run-keeps s key e [] held o u = held
dedup_run-keeps s key e (claims now sid mid g ∷ calls) held o u =
    dedup_run-keeps (claim s now sid mid g).0 key e calls (claim-keeps s key e held o sid mid now g)
      o u
dedup_run-keeps s key e (completes now sid mid ack ∷ calls) held o u =
    dedup_run-keeps (complete s now sid mid ack).0 key e calls
      (complete-keeps s key e held o sid mid now ack u.0) o u.1
dedup_run-keeps s key e (aborts sid mid ∷ calls) held o u =
    dedup_run-keeps (abort s sid mid) key e calls (abort-keeps s key e held o sid mid u.0) o u.1

claims-entry :
    (s : MemoryDedupStore) (now : ℕ) (session_id msg_id fingerprint : Text)
    → (claim s now session_id msg_id fingerprint).1 ≡ claimed
    → lookup (dedup_key session_id msg_id) (claim s now session_id msg_id fingerprint).0.records
      ≡ some (claimed_entry s now fingerprint)
unfolding claim
claims-entry s now session_id msg_id fingerprint won =
    let k = dedup_key session_id msg_id in
    let entry = claimed_entry s now fingerprint in
    ground (
      arith,
      won,
      text_eq_iff k k,
      lookup-insert k k entry s.records,
      lookup-insert k k entry (delete k s.records),
    )

claim-existing :
    (s : MemoryDedupStore) (later : ℕ) (session_id msg_id other : Text) (e : MemoryDedupEntry)
    → lookup (dedup_key session_id msg_id) s.records ≡ some e
    → e.saved.state ≡ processing
    → claim s later session_id msg_id other ≡ (s, existing e.saved)
unfolding claim
claim-existing s later session_id msg_id other e held o = ground (arith, held, o)

-- Once a claim is won, a later claim of the same message, at any time and with any fingerprint, is not: as
-- long as none of the calls between completes or aborts this message, it changes nothing and returns the
-- unfinished record with the fingerprint of the winner.
pub claim-exclusive :
    (s : MemoryDedupStore) (now later : ℕ) (session_id msg_id fingerprint other : Text)
    (calls : List DedupCall)
    → (claim s now session_id msg_id fingerprint).1 ≡ claimed
    → Unresolved (dedup_key session_id msg_id) calls
    → let s' = dedup_run (claim s now session_id msg_id fingerprint).0 calls in
      claim s' later session_id msg_id other
      ≡ (s', existing (record { state = processing; fingerprint = fingerprint; ack = none }))
claim-exclusive s now later session_id msg_id fingerprint other calls won u =
    let key = dedup_key session_id msg_id in
    let next = (claim s now session_id msg_id fingerprint).0 in
    let entry = claimed_entry s now fingerprint in
    let held =
      dedup_run-keeps next key entry calls (claims-entry s now session_id msg_id fingerprint won)
        refl u in
    claim-existing (dedup_run next calls) later session_id msg_id other entry held refl

complete-entry :
    (s : MemoryDedupStore) (now : ℕ) (session_id msg_id : Text) (e : MemoryDedupEntry)
    (ack : Envelope)
    → lookup (dedup_key session_id msg_id) s.records ≡ some e
    → e.saved.state ≡ processing
    → lookup (dedup_key session_id msg_id) (complete s now session_id msg_id (some ack)).0.records
      ≡ some (completed_entry s now e ack)
unfolding complete
complete-entry s now session_id msg_id e ack held o =
    let k = dedup_key session_id msg_id in
    ground
      (arith, held, o, text_eq_iff k k, lookup-insert k k (completed_entry s now e ack) s.records)

claim-completed :
    (s : MemoryDedupStore) (later : ℕ) (session_id msg_id other : Text) (e : MemoryDedupEntry)
    → lookup (dedup_key session_id msg_id) s.records ≡ some e
    → e.saved.state ≡ completed
    → (claim s later session_id msg_id other).1
      ≡ (if ltb_ℤ (pos later) e.expires_at then existing e.saved else claimed)
unfolding claim
claim-completed s later session_id msg_id other e held o = ground (arith, held, o)

-- After an unfinished record was completed: until the retention ends, a claim of the message, with any
-- fingerprint, returns the completed record with its ACK and the fingerprint first claimed; from then on a
-- claim is won.
pub complete-retained :
    (s : MemoryDedupStore) (now later : ℕ) (session_id msg_id other : Text) (e : MemoryDedupEntry)
    (ack : Envelope)
    → lookup (dedup_key session_id msg_id) s.records ≡ some e
    → e.saved.state ≡ processing
    → (claim (complete s now session_id msg_id (some ack)).0 later session_id msg_id other).1 ≡ (
        if ltb_ℤ (pos later) (pos now +ℤ s.ttl)
        then existing
            (record { state = completed; fingerprint = e.saved.fingerprint; ack = some ack })
        else claimed)
complete-retained s now later session_id msg_id other e ack held o =
    claim-completed (complete s now session_id msg_id (some ack)).0 later session_id msg_id other
      (completed_entry s now e ack) (complete-entry s now session_id msg_id e ack held o) refl
