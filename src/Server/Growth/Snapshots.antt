-- ===== src/Server/Growth/Snapshots.antt =====
-- server.go: what buildResumeStateSnapshot returns, the events that passed the loop of handleResume, and their
-- batch: every frame is a valid outbound frame.
use kmtproto.Prelude.{
  List, ℕ, ℤ, Text, [], ◌∷◌, ◌++◌, ◌≡◌, arith, All, All-append, add_u64, refl, subst,
}
use kmtproto.Wire.{
  Envelope, Json, Result, ok, err, Err, ErrorCode, StoreError, StateObject, ResumePayload, Fallible,
  fails, gives, replay_unavailable, replay_limit_exceeded, sequence_exhausted,
  state_snapshot_limit_exceeded, session_exists, outbound_closed, store_cause, decode_payload,
}
use kmtproto.Wire
use kmtproto.State.{StateSnapshotLimits}
use kmtproto.Server.Types.{Ending, returns, errors, panics, Services, ServerConfig, ServerState}
use kmtproto.Server.Monad.{M, then_run, of_result, ◌>>=◌}
use kmtproto.Server.Callbacks.{lane_callback}
use kmtproto.Server.Contents.{snapshot_of, resume_snapshot, state_snapshot_limits}
use kmtproto.Server.Snapshots.{build_resume_state_snapshot, snapshot_frame}
use kmtproto.Server.Resumes.{check_events, welcome_back, mark_ready, send_batch}
use kmtproto.Server.Keeping.{then-Keeps, check-Keeps, quiet-Keeps}
use kmtproto.Server.Growth.{IsValid, IsSound, GrownQueue, put_batch-IsSound}

-- Every value of `r` satisfies `P`.
record Ensures {B : Type 0} (P : B → Type 0) (r : Result B) : Type 0 where
  at : (b : B) → r ≡ ok b → P b

module _ {B : Type 0} (P : B → Type 0) where
  bind-Ensures :
      {A : Type 0} (r : Result A) (next : A → Result B)
      → ((a : A) → Ensures P (next a))
      → Ensures P (Wire.◌>>=◌ r next)
  bind-Ensures (ok a) next last = record { at = λ b e. (last a).at b e }
  bind-Ensures (err x) next last = record { at = λ b e. cc }

  then-Ensures :
      (r : Result (Unit {0})) (next : Result B)
      → (r ≡ ok tt → Ensures P next)
      → Ensures P (Wire.◌>>◌ r next)
  then-Ensures (ok tt) next last = record { at = λ b e. (last refl).at b e }
  then-Ensures (err x) next last = record { at = λ b e. cc }

  value-Ensures : (b : B) → P b → Ensures P (ok b)
  value-Ensures b h = record { at = λ c e. subst P (ground arith) h }

module _ {W B : Type 0} (P : B → Type 0) where
  followed-returns :
      {A : Type 0} (next : A → M W B) (s : ServerState W) (o : Ending A)
      → ((a : A) (s' : ServerState W) (b : B) → (next a s').1 ≡ returns b → P b)
      → (b : B) → (then_run next s o).1 ≡ returns b
      → P b
  followed-returns next s (returns a) last b e = last a s b e
  followed-returns next s (errors x) last b e = cc
  followed-returns next s (panics t) last b e = cc

  result-returns :
      (r : Result B)
      → ((b : B) → r ≡ ok b → P b)
      → (s : ServerState W) (b : B) → (of_result r s).1 ≡ returns b
      → P b
  result-returns (ok a) known s b e = known b (ground arith)
  result-returns (err x) known s b e = cc

module _ (json : Json) (config : ServerConfig) where
  resume_snapshot-IsValid :
      (frame : Envelope) (bounds : StateSnapshotLimits) (namespaces : List Text)
      (states : List StateObject)
      → Ensures (IsValid json config) (resume_snapshot json config frame bounds namespaces states)
  unfolding resume_snapshot snapshot_of
  resume_snapshot-IsValid frame bounds namespaces states =
      search (bind-Ensures, then-Ensures, value-Ensures) depth 8

  pub build-IsValid :
      {W : Type 0} (call : List Text → StateSnapshotLimits → W → W × Ending (List StateObject))
      (session_id frame_id : Text) (timestamp : ℤ) (namespaces : List Text) (s : ServerState W)
      (snapshot : Envelope)
      → (build_resume_state_snapshot json config call session_id frame_id timestamp namespaces s).1
        ≡ returns snapshot
      → IsValid json config snapshot
  unfolding build_resume_state_snapshot
  build-IsValid call session_id frame_id timestamp namespaces s snapshot =
      let P = IsValid json config in
      let frame = snapshot_frame session_id frame_id timestamp in
      let bounded = of_result (state_snapshot_limits json config frame) s in
      followed-returns P
        (λ bounds. lane_callback session_id (call namespaces bounds) >>= λ states.
          of_result (resume_snapshot json config frame bounds namespaces states))
        bounded.0 bounded.1
        (λ bounds s'.
          let called = lane_callback session_id (call namespaces bounds) s' in
          followed-returns P
            (λ states. of_result (resume_snapshot json config frame bounds namespaces states))
            called.0 called.1
            (λ states.
              result-returns P (resume_snapshot json config frame bounds namespaces states)
                (resume_snapshot-IsValid frame bounds namespaces states).at))
        snapshot

module _ {W : Type 0} (json : Json) (config : ServerConfig) (services : Services W)
    (old : List Envelope) where
  pub events-IsValid :
      (session_id : Text) (n m : ℕ) (events : List Envelope)
      → check_events json config services session_id n events ≡ gives m
      → All (IsValid json config) events
  unfolding check_events
  events-IsValid session_id n m [] e = tt
  events-IsValid session_id n m (x ∷ rest) e =
      (ground arith, events-IsValid session_id (add_u64 n 1) m rest (ground arith))

  pub send_batch-IsSound :
      (frame : Envelope) (resume : ResumePayload) (replay_to : ℕ) (timestamp : ℤ)
      (events snapshots : List Envelope)
      → All (IsValid json config) events
      → All (IsValid json config) snapshots
      → IsSound json config services old
          (send_batch json config services frame resume replay_to timestamp events snapshots)
  unfolding send_batch
  send_batch-IsSound frame resume replay_to timestamp events snapshots here there =
      check-Keeps (GrownQueue json config services old) _ _ (λ fine.
        then-Keeps (GrownQueue json config services old) _ _
          (put_batch-IsSound json config services old
            ((welcome_back json config services frame resume replay_to timestamp ∷ events)
              ++ snapshots)
            (fine, All-append (IsValid json config) events snapshots here there))
          (quiet-Keeps (GrownQueue json config services old)
            (mark_ready json config services frame.session_id) (λ s. refl)))
