-- ===== src/Store/Refinement.antt =====
-- MemoryDedupStore refines one small machine for each message.
use kmtproto.Prelude.{
  ℕ, ℤ, ◌≡◌, ◌≢◌, refl, ap, subst, ◌∙◌, inl, inr, Text, List, [], ◌∷◌, ◌&&◌, Bool, true, none, some,
  Bool-cases, lookup, text_eq, text_eq_iff, text_instance, All, arith,
}
use kmtproto.Store.{MemoryDedupStore, new_memory_dedup_store, dedup_key, claim, complete, abort}
use kmtproto.Store.Claims.{DedupCall, claims, completes, aborts, dedup_run}
use kmtproto.Store.Messages.{
  absent, status_of, claim_answer, call_status, session_of, message_of, status_after,
}
use kmtproto.Store.Statuses.{
  claim-status, claim-others, complete-status, complete-others, abort-status, abort-others,
}

-- One call on the store.
abbrev call_store : DedupCall → MemoryDedupStore → MemoryDedupStore
call_store (claims now session_id msg_id fingerprint) s =
    (claim s now session_id msg_id fingerprint).0
call_store (completes now session_id msg_id ack) s = (complete s now session_id msg_id ack).0
call_store (aborts session_id msg_id) s = abort s session_id msg_id

call_store-ttl : (call : DedupCall) (s : MemoryDedupStore) → (call_store call s).ttl ≡ s.ttl
unfolding claim complete abort
call_store-ttl (claims now session_id msg_id fingerprint) s = ground arith
call_store-ttl (completes now session_id msg_id none) s = refl
call_store-ttl (completes now session_id msg_id (some ack)) s = ground arith
call_store-ttl (aborts session_id msg_id) s = ground arith

-- The zero byte ends the Session's id, so ids without one make different keys of different messages.
abbrev pub NoZero : Text → Type 0
NoZero t = All (λ (b : ℕ). b ≢ 0) t

front : Text → ℕ
front [] = 0
front (b ∷ t) = b

behind : Text → Text
behind [] = []
behind (b ∷ t) = t

dedup_key-injective :
    (s t m n : Text) → NoZero s → NoZero t → dedup_key s m ≡ dedup_key t n → (s ≡ t) × (m ≡ n)
unfolding dedup_key front behind
dedup_key-injective [] [] m n hs ht e = (refl, ap behind e)
dedup_key-injective [] (b ∷ t) m n hs ht e = ground (arith, ap front e, ht)
dedup_key-injective (a ∷ s) [] m n hs ht e = ground (arith, ap front e, hs)
dedup_key-injective (a ∷ s) (b ∷ t) m n hs ht e =
    let (same, rest) = dedup_key-injective s t m n hs.1 ht.1 (ap behind e) in
    let first : a ≡ b = ap front e in ((λ i. first i ∷ same i), rest)

own-status :
    (call : DedupCall) (s : MemoryDedupStore)
    → status_of (call_store call s) (dedup_key (session_of call) (message_of call))
      ≡ call_status s.ttl true call (status_of s (dedup_key (session_of call) (message_of call)))
own-status (claims now session_id msg_id fingerprint) s =
    (claim-status s session_id msg_id now fingerprint).0
own-status (completes now session_id msg_id ack) s = complete-status s session_id msg_id now ack
own-status (aborts session_id msg_id) s = abort-status s session_id msg_id

other-status :
    (call : DedupCall) (s : MemoryDedupStore) (key : Text)
    → dedup_key (session_of call) (message_of call) ≢ key
    → status_of (call_store call s) key ≡ status_of s key
other-status (claims now session_id msg_id fingerprint) s key other =
    claim-others s session_id msg_id now fingerprint key other
other-status (completes now session_id msg_id ack) s key other =
    complete-others s session_id msg_id now ack key other
other-status (aborts session_id msg_id) s key other = abort-others s session_id msg_id key other

abbrev about : DedupCall → Text → Text → Bool
about call session_id msg_id =
    text_eq (session_of call) session_id && text_eq (message_of call) msg_id

step-status :
    (call : DedupCall) (s : MemoryDedupStore) (session_id msg_id : Text)
    → NoZero (session_of call)
    → NoZero session_id
    → status_of (call_store call s) (dedup_key session_id msg_id)
      ≡ call_status s.ttl
          (about call session_id msg_id)
          call
          (status_of s (dedup_key session_id msg_id))
step-status call s session_id msg_id clean clean' =
    let key = dedup_key session_id msg_id in
    elim (Bool-cases (about call session_id msg_id)) [
      | inl own ↦
          let e : session_of call ≡ session_id =
            ground (arith, text_eq_iff (session_of call) session_id, own) in
          let e' : message_of call ≡ msg_id =
            ground (arith, text_eq_iff (message_of call) msg_id, own) in
          rw own (
            subst
              (λ k. status_of (call_store call s) k ≡ call_status s.ttl true call (status_of s k))
              (λ i. dedup_key (e i) (e' i)) (own-status call s))
      | inr foreign ↦ rw foreign (
          other-status call s key (λ same.
            let (e, e') =
              dedup_key-injective (session_of call) session_id (message_of call) msg_id clean clean'
                same in
            ground (
              arith,
              text_eq_iff (session_of call) session_id,
              text_eq_iff (message_of call) msg_id,
              e,
              e',
              foreign,
            )))
    ]

dedup_run-step :
    (call : DedupCall) (calls : List DedupCall) (s : MemoryDedupStore)
    → dedup_run s (call ∷ calls) ≡ dedup_run (call_store call s) calls
unfolding dedup_run
dedup_run-step (claims now session_id msg_id fingerprint) calls s = refl
dedup_run-step (completes now session_id msg_id ack) calls s = refl
dedup_run-step (aborts session_id msg_id) calls s = refl

abbrev pub AreClean : List DedupCall → Type 0
AreClean calls = All (λ (call : DedupCall). NoZero (session_of call)) calls

dedup_run-status :
    (calls : List DedupCall) (s : MemoryDedupStore) (session_id msg_id : Text)
    → AreClean calls
    → NoZero session_id
    → status_of (dedup_run s calls) (dedup_key session_id msg_id)
      ≡ status_after s.ttl session_id msg_id calls (status_of s (dedup_key session_id msg_id))
unfolding status_after dedup_run
dedup_run-status [] s session_id msg_id clean clean' = refl
dedup_run-status (call ∷ calls) s session_id msg_id clean clean' =
    let key = dedup_key session_id msg_id in
    let next = call_store call s in
    ap (λ t. status_of t key) (dedup_run-step call calls s)
    ∙ dedup_run-status calls next session_id msg_id clean.1 clean'
    ∙ (λ i.
        status_after (call_store-ttl call s i) session_id msg_id calls
          (step-status call s session_id msg_id clean.0 clean' i))

-- The store refines one small machine for each message: after any calls from the new store on, where no
-- Session's id holds a zero byte, the status of a message, its record and the end of its retention included, and
-- the answer to its next claim, at any time and with any fingerprint, are those of a machine that sees the calls
-- for this message only.
pub dedup_run-refines :
    (ttl : ℤ) (calls : List DedupCall) (now : ℕ) (session_id msg_id fingerprint : Text)
    → AreClean calls
    → NoZero session_id
    → let s = dedup_run (new_memory_dedup_store ttl) calls in
      let status = status_after ttl session_id msg_id calls absent in
      (status_of s (dedup_key session_id msg_id) ≡ status)
      × ((claim s now session_id msg_id fingerprint).1 ≡ claim_answer now status)
unfolding status_of lookup
dedup_run-refines ttl calls now session_id msg_id fingerprint clean clean' =
    let s = dedup_run (new_memory_dedup_store ttl) calls in
    let same = dedup_run-status calls (new_memory_dedup_store ttl) session_id msg_id clean clean' in
    (same, (claim-status s session_id msg_id now fingerprint).1 ∙ ap (claim_answer now) same)
