-- ===== src/Store/Statuses.antt =====
-- One call on MemoryDedupStore: the status of its own message, and of every other one.
use kmtproto.Prelude.{
  ℕ, ◌≡◌, ◌≢◌, ◌⊎◌, refl, inl, inr, Text, Option, none, some, Option-cases, lookup, delete,
  lookup-insert, lookup-delete, text_eq_iff, text_instance, arith,
}
use kmtproto.Wire.{Envelope, DedupState, processing, completed}
use kmtproto.Store.{
  MemoryDedupStore, dedup_key, claimed_entry, completed_entry, claim, complete, abort,
}
use kmtproto.Store.Messages.{status_of, claim_status, claim_answer, complete_status, abort_status}

DedupState-cases : (state : DedupState) → (state ≡ processing) ⊎ (state ≡ completed)
DedupState-cases processing = inl refl
DedupState-cases completed = inr refl

module _ (s : MemoryDedupStore) (session_id msg_id : Text) where
  abbrev pub own_key : Text
  own_key = dedup_key session_id msg_id

  pub claim-status :
      (now : ℕ) (fingerprint : Text)
      → (status_of (claim s now session_id msg_id fingerprint).0 own_key
          ≡ claim_status now fingerprint (status_of s own_key))
        × ((claim s now session_id msg_id fingerprint).1 ≡ claim_answer now (status_of s own_key))
  unfolding claim status_of
  claim-status now fingerprint =
      let k = dedup_key session_id msg_id in
      let entry = claimed_entry s now fingerprint in
      elim (Option-cases (lookup k s.records)) [
        | inl q ↦ ground (arith, q, text_eq_iff k k, lookup-insert k k entry s.records)
        | inr (old, q) ↦ elim (DedupState-cases old.saved.state) [
          | inl p ↦ ground (arith, q, p)
          | inr p ↦
              ground (arith, q, p, text_eq_iff k k, lookup-insert k k entry (delete k s.records))
        ]
      ]

  pub claim-others :
      (now : ℕ) (fingerprint key : Text)
      → dedup_key session_id msg_id ≢ key
      → status_of (claim s now session_id msg_id fingerprint).0 key ≡ status_of s key
  unfolding claim status_of
  claim-others now fingerprint key other =
      let k = dedup_key session_id msg_id in
      let entry = claimed_entry s now fingerprint in
      ground (
        arith,
        text_eq_iff k key,
        lookup-insert k key entry s.records,
        lookup-insert k key entry (delete k s.records),
        lookup-delete k key s.records,
      )

  pub complete-status :
      (now : ℕ) (ack : Option Envelope)
      → status_of (complete s now session_id msg_id ack).0 own_key
        ≡ complete_status s.ttl now ack (status_of s own_key)
  unfolding complete status_of
  complete-status now none = refl
  complete-status now (some ack) =
      let k = dedup_key session_id msg_id in
      elim (Option-cases (lookup k s.records)) [
        | inl q ↦ ground (arith, q)
        | inr (old, q) ↦ elim (DedupState-cases old.saved.state) [
          | inl p ↦ ground (
            arith,
            q,
            p,
            text_eq_iff k k,
            lookup-insert k k (completed_entry s now old ack) s.records,
          )
          | inr p ↦ ground (arith, q, p)
        ]
      ]

  pub complete-others :
      (now : ℕ) (ack : Option Envelope) (key : Text)
      → dedup_key session_id msg_id ≢ key
      → status_of (complete s now session_id msg_id ack).0 key ≡ status_of s key
  unfolding complete status_of
  complete-others now none key other = refl
  complete-others now (some ack) key other =
      let k = dedup_key session_id msg_id in
      elim (Option-cases (lookup k s.records)) [
        | inl q ↦ ground (arith, q)
        | inr (old, q) ↦ ground (
          arith,
          q,
          text_eq_iff k key,
          lookup-insert k key (completed_entry s now old ack) s.records,
        )
      ]

  pub abort-status :
      status_of (abort s session_id msg_id) own_key ≡ abort_status (status_of s own_key)
  unfolding abort status_of
  abort-status =
      let k = dedup_key session_id msg_id in
      elim (Option-cases (lookup k s.records)) [
        | inl q ↦ ground (arith, q)
        | inr (old, q) ↦ elim (DedupState-cases old.saved.state) [
          | inl p ↦ ground (arith, q, p, text_eq_iff k k, lookup-delete k k s.records)
          | inr p ↦ ground (arith, q, p)
        ]
      ]

  pub abort-others :
      (key : Text)
      → dedup_key session_id msg_id ≢ key
      → status_of (abort s session_id msg_id) key ≡ status_of s key
  unfolding abort status_of
  abort-others key other =
      let k = dedup_key session_id msg_id in
      ground (arith, text_eq_iff k key, lookup-delete k key s.records)
