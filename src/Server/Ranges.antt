-- ===== src/Server/Ranges.antt =====
-- The loop of handleResume over the replayed events: what it accepts is the whole range, in order.
use kmtproto.Prelude.{
  ℕ, suc, ◌+◌, ◌%◌, ◌^◌, ◌<◌, ◌≤◌, add_u64, ◌≡◌, true, Text, text_eq_iff, List, [], ◌∷◌, length,
  arith,
}
use kmtproto.Wire.{Envelope, Json, gives}
use kmtproto.Server.Types.{Services, ServerConfig}
use kmtproto.Server.Resumes.{check_events, is_event}

-- EVENTs of a Session with the sequences from n on, one after the other.
abbrev pub Follows : Text → ℕ → List Envelope → Type 0
Follows session_id n [] = Unit
Follows session_id n (e ∷ rest) =
    (is_event e.type ≡ true)
    × (e.session_id ≡ session_id)
    × (e.seq ≡ n)
    × Follows session_id (suc n) rest

module _ {W : Type 0} (json : Json) (config : ServerConfig) (services : Services W)
    (session_id : Text) where
  check_events-head :
      (n m : ℕ) (e : Envelope) (rest : List Envelope)
      → check_events json config services session_id n (e ∷ rest) ≡ gives m
      → (is_event e.type ≡ true)
        × (e.session_id ≡ session_id)
        × (e.seq ≡ n)
        × (check_events json config services session_id (add_u64 n 1) rest ≡ gives m)
  unfolding check_events
  check_events-head n m e rest h = ground (arith, text_eq_iff e.session_id session_id)

  pub check_events-end :
      (n m : ℕ) (events : List Envelope)
      → n < 2 ^ 64
      → check_events json config services session_id n events ≡ gives m
      → m ≡ (n + length events) % 2 ^ 64
  unfolding check_events
  check_events-end n m [] small h = ground arith
  check_events-end n m (e ∷ rest) small h =
      let (kind, owner, here, later) = check_events-head n m e rest h in
      omega (arith, check_events-end (add_u64 n 1) m rest (omega arith) later)

  pub check_events-Follows :
      (n m : ℕ) (events : List Envelope)
      → n + length events ≤ 2 ^ 64
      → check_events json config services session_id n events ≡ gives m
      → Follows session_id n events
  check_events-Follows n m [] small h = tt
  check_events-Follows n m (e ∷ []) small h =
      let (kind, owner, here, later) = check_events-head n m e [] h in (kind, owner, here, tt)
  check_events-Follows n m (e ∷ f ∷ rest) small h =
      let (kind, owner, here, later) = check_events-head n m e (f ∷ rest) h in
      let next : add_u64 n 1 ≡ suc n = omega arith in
      (
        kind,
        owner,
        here,
        check_events-Follows (suc n) m (f ∷ rest) (omega arith) (rw next at later),
      )
