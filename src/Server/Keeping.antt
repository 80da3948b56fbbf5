-- ===== src/Server/Keeping.antt =====
-- Rules for what a method of the processor keeps true of the outbound queue, one for each way to build a
-- method.

use kmtproto.Prelude.{
  Option, none, some, ◌≡◌, refl, sym, ap, subst, Bool, true, false, Text, if◌then◌else◌,
}
use kmtproto.Wire.{Err, Result, ok, err}
use kmtproto.Outbound.{OutboundQueue}
use kmtproto.Server.Types.{Ending, returns, errors, panics, ServerState}
use kmtproto.Server.Monad.{M, of_result, rescue, rescue_run, then_run, ◌>>=◌, ◌>>◌}
use kmtproto.Server.Callbacks.{lane_callback, run_stream}
use kmtproto.Server.Effects.{of_result-state, lane_callback-seen, run_stream-seen}

-- `m` keeps `P` of the queue, however it ends.
pub record Keeps {W A : Type 0} (P : OutboundQueue → Type 0) (m : M W A) : Type 0 where
  pub at : (s : ServerState W) → P s.outbound → P (m s).0.outbound

module _ {W : Type 0} (P : OutboundQueue → Type 0) where
  followed-Keeps :
      {A B : Type 0} (next : A → M W B) (s : ServerState W) (o : Ending A)
      → ((a : A) → Keeps P (next a))
      → P s.outbound
      → P (then_run next s o).0.outbound
  followed-Keeps next s (returns a) after h = (after a).at s h
  followed-Keeps next s (errors e) after h = h
  followed-Keeps next s (panics t) after h = h

  rescued-Keeps :
      {A B : Type 0} (handle : Err → M W B) (next : A → M W B) (s : ServerState W) (o : Ending A)
      → ((e : Err) → Keeps P (handle e))
      → ((a : A) → Keeps P (next a))
      → P s.outbound
      → P (rescue_run handle next s o).0.outbound
  rescued-Keeps handle next s (returns a) failed after h = (after a).at s h
  rescued-Keeps handle next s (errors e) failed after h = (failed e).at s h
  rescued-Keeps handle next s (panics t) failed after h = h

  pub bind-Keeps :
      {A B : Type 0} (m : M W A) (next : A → M W B)
      → Keeps P m
      → ((a : A) → Keeps P (next a))
      → Keeps P (m >>= next)
  bind-Keeps m next first after = record {
    at = λ s h. followed-Keeps next (m s).0 (m s).1 after (first.at s h);
  }

  pub then-Keeps :
      {B : Type 0} (m : M W (Unit {0})) (next : M W B)
      → Keeps P m
      → Keeps P next
      → Keeps P (m >> next)
  then-Keeps m next first after = record {
    at = λ s h. followed-Keeps (λ u. next) (m s).0 (m s).1 (λ u. after) (first.at s h);
  }

  pub rescue-Keeps :
      {A B : Type 0} (m : M W A) (handle : Err → M W B) (next : A → M W B)
      → Keeps P m
      → ((e : Err) → Keeps P (handle e))
      → ((a : A) → Keeps P (next a))
      → Keeps P (rescue m handle next)
  rescue-Keeps m handle next first failed after = record {
    at = λ s h. rescued-Keeps handle next (m s).0 (m s).1 failed after (first.at s h);
  }

  rescued_with-Keeps :
      {A B : Type 0} (R : A → Type 0) (handle : Err → M W B) (next : A → M W B) (s : ServerState W)
      (o : Ending A)
      → ((a : A) → o ≡ returns a → R a)
      → ((e : Err) → Keeps P (handle e))
      → ((a : A) → R a → Keeps P (next a))
      → P s.outbound
      → P (rescue_run handle next s o).0.outbound
  rescued_with-Keeps R handle next s (returns a) known failed after h =
      (after a (known a refl)).at s h
  rescued_with-Keeps R handle next s (errors e) known failed after h = (failed e).at s h
  rescued_with-Keeps R handle next s (panics t) known failed after h = h

  -- The rest may use what every value of the first method satisfies.
  pub rescue_with-Keeps :
      {A B : Type 0} (R : A → Type 0) (m : M W A) (handle : Err → M W B) (next : A → M W B)
      → ((s : ServerState W) (a : A) → (m s).1 ≡ returns a → R a)
      → Keeps P m
      → ((e : Err) → Keeps P (handle e))
      → ((a : A) → R a → Keeps P (next a))
      → Keeps P (rescue m handle next)
  rescue_with-Keeps R m handle next known first failed after = record {
    at = λ s h.
        rescued_with-Keeps R handle next (m s).0 (m s).1 (known s) failed after (first.at s h);
  }

  -- The rest may use that the result is not an error.
  pub result-Keeps :
      {A B : Type 0} (r : Result A) (next : A → M W B)
      → ((a : A) → r ≡ ok a → Keeps P (next a))
      → Keeps P (of_result r >>= next)
  result-Keeps (ok a) next after = record { at = λ s h. (after a refl).at s h }
  result-Keeps (err e) next after = record { at = λ s h. h }

  pub check-Keeps :
      {B : Type 0} (r : Result (Unit {0})) (next : M W B)
      → (r ≡ ok tt → Keeps P next)
      → Keeps P (of_result r >> next)
  check-Keeps (ok tt) next after = record { at = λ s h. (after refl).at s h }
  check-Keeps (err e) next after = record { at = λ s h. h }

  pub if-Keeps :
      {A : Type 0} (b : Bool) (m n : M W A)
      → (b ≡ true → Keeps P m)
      → (b ≡ false → Keeps P n)
      → Keeps P (if b then m else n)
  if-Keeps true m n taken skipped = taken refl
  if-Keeps false m n taken skipped = skipped refl

  pub option-Keeps :
      {A B : Type 0} (o : Option A) (m : M W B) (next : A → M W B)
      → Keeps P m
      → ((a : A) → Keeps P (next a))
      → Keeps P (elim o [ none ↦ m | some a ↦ next a ])
  option-Keeps none m next km kn = km
  option-Keeps (some a) m next km kn = kn a

  -- A method that leaves the queue alone.
  pub quiet-Keeps :
      {A : Type 0} (m : M W A) → ((s : ServerState W) → (m s).0.outbound ≡ s.outbound) → Keeps P m
  quiet-Keeps m still = record { at = λ s h. subst P (sym (still s)) h }

  pub of_result-Keeps : {A : Type 0} (r : Result A) → Keeps {W = W} P (of_result r)
  of_result-Keeps r = quiet-Keeps (of_result r) (λ s. ap (λ t. t.outbound) (of_result-state r s))

  pub lane-Keeps :
      {A : Type 0} (session_id : Text) (call : W → W × Ending A)
      → Keeps P (lane_callback session_id call)
  lane-Keeps session_id call =
      quiet-Keeps (lane_callback session_id call)
        (λ s. ap (λ p. p.0) (lane_callback-seen session_id call s))

  pub stream-Keeps :
      {A : Type 0} (session_id : Text) (operation : M W A)
      → Keeps P operation
      → Keeps P (run_stream session_id operation)
  stream-Keeps session_id operation kept = record {
    at = λ s h.
        run_stream-seen (λ p. P p.0) session_id operation s h
          (λ s' same. kept.at s' (subst P (sym (ap (λ p. p.0) same)) h));
  }
