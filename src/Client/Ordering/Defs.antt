-- ===== src/Client/Ordering/Defs.antt =====
-- The sequence numbers that the actions hand to the application, and what order means.
use kmtproto.Prelude.{ℕ, zero, suc, ◌+◌, ◌<◌, ◌^◌, ◌≡◌, ◌⊎◌, List, [], ◌∷◌, ◌++◌, ap, refl, length}
use kmtproto.Wire.{Envelope, resuming}
use kmtproto.Client.{
  Client, Action, deliver_event, send_frame, acked, session_ready, state_changed,
  protocol_error_action, full_sync_required_action, close_connection, Outcome, Call, receives,
  actions_of,
}

-- The sequences of the delivered EVENTs, in the order of the actions.
unfoldable pub delivered : List Action → List ℕ
delivered [] = []
delivered (deliver_event e ∷ rest) = e.seq ∷ delivered rest
delivered (send_frame e ∷ rest) = delivered rest
delivered (acked id ∷ rest) = delivered rest
delivered (session_ready id ∷ rest) = delivered rest
delivered (state_changed o r ∷ rest) = delivered rest
delivered (protocol_error_action p ∷ rest) = delivered rest
delivered (full_sync_required_action id ∷ rest) = delivered rest
delivered (close_connection reason ∷ rest) = delivered rest

pub delivered-append : (xs ys : List Action) → delivered (xs ++ ys) ≡ delivered xs ++ delivered ys
unfolding delivered
delivered-append [] ys = refl
delivered-append (deliver_event e ∷ xs) ys = ap (◌∷◌ e.seq) (delivered-append xs ys)
delivered-append (send_frame e ∷ xs) ys = delivered-append xs ys
delivered-append (acked id ∷ xs) ys = delivered-append xs ys
delivered-append (session_ready id ∷ xs) ys = delivered-append xs ys
delivered-append (state_changed o r ∷ xs) ys = delivered-append xs ys
delivered-append (protocol_error_action p ∷ xs) ys = delivered-append xs ys
delivered-append (full_sync_required_action id ∷ xs) ys = delivered-append xs ys
delivered-append (close_connection reason ∷ xs) ys = delivered-append xs ys

-- from, from + 1, …
abbrev pub count_up : ℕ → ℕ → List ℕ
count_up from zero = []
count_up from (suc n) = from ∷ count_up (from + 1) n

-- Each event is the next one after `n`.
abbrev pub Contiguous : ℕ → List Envelope → Type 0
Contiguous n [] = Unit
Contiguous n (e ∷ es) = (e.seq ≡ n + 1) × Contiguous (n + 1) es

-- The replay buffer continues `last_seq`, within the 64-bit sequences, and is empty outside RESUMING.
pub record IsOrdered (c : Client) : Type 0 where
  pub contiguous : Contiguous c.last_seq c.replay_buffer
  pub fits : c.last_seq + length c.replay_buffer < 2 ^ 64
  pub idle : (c.state ≡ resuming) ⊎ (c.replay_buffer ≡ [])

-- The sequences are the next ones, without a gap or a repetition, and `last_seq` counts them.
abbrev pub Continues : Client → Client → List ℕ → Type 0
Continues c c' seqs =
    (c'.last_seq ≡ c.last_seq + length seqs) × (seqs ≡ count_up (c.last_seq + 1) (length seqs))

-- The Session is abandoned: nothing is delivered and the counter starts over.
abbrev pub StartsOver : Client → List ℕ → Type 0
StartsOver c' seqs = (c'.session_id ≡ []) × (c'.last_seq ≡ 0) × (seqs ≡ [])

abbrev pub InOrder : Client → Outcome → Type 0
InOrder c o =
    Continues c o.0 (delivered (actions_of o.1)) ⊎ StartsOver o.0 (delivered (actions_of o.1))

abbrev pub Orderly : Client → Outcome → Type 0
Orderly c o = IsOrdered o.0 × InOrder c o

-- A sequence number on the wire is a uint64.
abbrev pub FitsWire : Call → Type 0
FitsWire (receives g frame) = frame.seq < 2 ^ 64
FitsWire _ = Unit
