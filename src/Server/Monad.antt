-- ===== src/Server/Monad.antt =====
-- The shape of the processor's methods: a state is passed on through returns, errors and panics alike.
use kmtproto.Prelude.{ℕ}
use kmtproto.Wire.{Result, ok, err, Err}
use kmtproto.Server.Types.{Ending, returns, errors, panics, ServerState, HandleResult}

abbrev pub M : Type 0 → Type 0 → Type 0
M W A = ServerState W → ServerState W × Ending A

module _ {W : Type 0} where
  abbrev pub return : {A : Type 0} → A → M W A
  return a s = (s, returns a)

  abbrev pub throw : {A : Type 0} → Err → M W A
  throw e s = (s, errors e)

  -- What follows a call: nothing, if it ended in an error or a panic.
  abbrev pub then_run :
      {A B : Type 0} → (A → M W B) → ServerState W → Ending A → ServerState W × Ending B
  then_run next s (returns a) = next a s
  then_run next s (errors e) = (s, errors e)
  then_run next s (panics t) = (s, panics t)

  infixl 5 ◌>>=◌ ◌>>◌
  abbrev pub ◌>>=◌ : {A B : Type 0} (m : M W A) (next : A → M W B) → M W B
  (m >>= next) s = then_run next (m s).0 (m s).1

  abbrev pub ◌>>◌ : {B : Type 0} (m : M W (Unit {0})) (next : M W B) → M W B
  (m >> next) s = then_run (λ u. next) (m s).0 (m s).1

  -- `if err != nil { return handle(err) }`: an error is handled, a panic is not.
  abbrev pub rescue_run :
      {A B : Type 0}
      → (Err → M W B)
      → (A → M W B)
      → ServerState W
      → Ending A
      → ServerState W × Ending B
  rescue_run handle next s (returns a) = next a s
  rescue_run handle next s (errors e) = handle e s
  rescue_run handle next s (panics t) = (s, panics t)

  abbrev pub rescue : {A B : Type 0} → M W A → (Err → M W B) → (A → M W B) → M W B
  rescue m handle next s = rescue_run handle next (m s).0 (m s).1

  -- A call of a collaborator.
  abbrev pub perform : {A : Type 0} → (W → W × Ending A) → M W A
  perform call s = (record s { world = (call s.world).0 }, (call s.world).1)

  abbrev pub read_clock : (W → W × ℕ) → M W ℕ
  read_clock now s = (record s { world = (now s.world).0 }, returns (now s.world).1)

  abbrev pub of_result : {A : Type 0} → Result A → M W A
  of_result (ok a) = return a
  of_result (err e) = throw e

  abbrev pub set_result : HandleResult → M W (Unit {0})
  set_result r s = (record s { result = r }, returns tt)
