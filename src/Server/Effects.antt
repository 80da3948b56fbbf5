-- ===== src/Server/Effects.antt =====
-- Rules for what the processor's steps leave of the queue and of the result, by which the proofs walk along
-- its methods.
use kmtproto.Prelude.{
  ℤ, ◌≡◌, refl, sym, ap, ◌∙◌, subst, ◌⊎◌, inl, inr, Bool, true, false, Bool-cases, Text, List,
  arith, if◌then◌else◌, text_instance,
}
use kmtproto.Wire.{StateObject, Json, ErrorCode, Err, Result, ok, err}
use kmtproto.Outbound.{OutboundQueue, enqueue_batch}
use kmtproto.Server.Types.{Ending, returns, errors, panics, Services, ServerConfig, ServerState}
use kmtproto.Server.Monad.{M, of_result, rescue, rescue_run, then_run, ◌>>=◌}
use kmtproto.Server.Frames.{enqueue_frame, enqueue_error_at}
use kmtproto.State.{StateSnapshotLimits}
use kmtproto.Server.Contents.{state_snapshot_limits, resume_snapshot}
use kmtproto.Server.Snapshots.{build_resume_state_snapshot, snapshot_frame}
use kmtproto.Server.Callbacks.{lane_callback, run_stream, lane_of, enter_lane, leave_lane}

-- What the proofs look at: the queue, and the Session that the result makes ready.
abbrev pub seen : {W : Type 0} → ServerState W → OutboundQueue × Text
seen s = (s.outbound, s.result.ready_session_id)

module _ {W : Type 0} where
  rescued :
      {A B : Type 0} (P : OutboundQueue × Text → Type 0) (handle : Err → M W B) (next : A → M W B)
      (s : ServerState W) (o : Ending A)
      → ((a : A) → o ≡ returns a → P (seen (next a s).0))
      → ((e : Err) → P (seen (handle e s).0))
      → P (seen s)
      → P (seen (rescue_run handle next s o).0)
  rescued P handle next s (returns a) returned failed panicked = returned a refl
  rescued P handle next s (errors e) returned failed panicked = failed e
  rescued P handle next s (panics t) returned failed panicked = panicked

  followed :
      {A B : Type 0} (P : ServerState W → Type 0) (next : A → M W B) (s : ServerState W)
      (o : Ending A)
      → ((a : A) → o ≡ returns a → P (next a s).0)
      → P s
      → P (then_run next s o).0
  followed P next s (returns a) returned stopped = returned a refl
  followed P next s (errors e) returned stopped = stopped
  followed P next s (panics t) returned stopped = stopped

  -- What holds after a step, and after whatever follows its return.
  pub state_after :
      {A B : Type 0} (P : ServerState W → Type 0) (m : M W A) (next : A → M W B) (s : ServerState W)
      → ((a : A) → (m s).1 ≡ returns a → P (next a (m s).0).0)
      → P (m s).0
      → P ((m >>= next) s).0
  state_after P m next s = followed P next (m s).0 (m s).1

  pub after_rescue :
      {A B : Type 0} (P : OutboundQueue × Text → Type 0) (m : M W A) (handle : Err → M W B)
      (next : A → M W B) (s : ServerState W)
      → ((a : A) → (m s).1 ≡ returns a → P (seen (next a (m s).0).0))
      → ((e : Err) → P (seen (handle e (m s).0).0))
      → P (seen (m s).0)
      → P (seen (rescue m handle next s).0)
  after_rescue P m handle next s = rescued P handle next (m s).0 (m s).1

  pub after_bind :
      {A B : Type 0} (P : OutboundQueue × Text → Type 0) (m : M W A) (next : A → M W B)
      (s : ServerState W)
      → ((a : A) → (m s).1 ≡ returns a → P (seen (next a (m s).0).0))
      → P (seen (m s).0)
      → P (seen ((m >>= next) s).0)
  after_bind P m next s = state_after (λ s'. P (seen s')) m next s

  pub lane_callback-seen :
      {A : Type 0} (session_id : Text) (call : W → W × Ending A) (s : ServerState W)
      → seen (lane_callback session_id call s).0 ≡ seen s
  unfolding lane_callback
  lane_callback-seen session_id call s =
      elim (Bool-cases (lane_of session_id s.lanes).callback_active) [
        | inl on ↦ rw on
        | inr off ↦ rw off
      ]

  pub lane_callback-out :
      {A : Type 0} (session_id : Text) (call : W → W × Ending A) (a : A) (s : ServerState W)
      → (lane_callback session_id call s).1 ≡ returns a
      → (call s.world).1 ≡ returns a
  unfolding lane_callback
  lane_callback-out session_id call a s e = ground arith

  pub lane_callback-run :
      {A : Type 0} (session_id : Text) (call : W → W × Ending A) (a : A) (s : ServerState W)
      → (lane_callback session_id call s).1 ≡ returns a
      → call s.world ≡ ((lane_callback session_id call s).0.world, returns a)
  unfolding lane_callback
  lane_callback-run session_id call a s e = ground (arith, e)

  leave_lane-seen :
      (session_id : Text) (s : ServerState W) → seen (leave_lane session_id s) ≡ seen s
  unfolding leave_lane
  leave_lane-seen session_id s = ground arith

  run_stream-cases :
      {A : Type 0} (session_id : Text) (operation : M W A) (s : ServerState W)
      → (s' : ServerState W) × (seen s' ≡ seen s)
        × (((run_stream session_id operation s).0 ≡ leave_lane session_id s')
            ⊎ ((run_stream session_id operation s).0 ≡ leave_lane session_id (operation s').0))
  unfolding run_stream enter_lane
  run_stream-cases session_id operation s =
      elim (Bool-cases (lane_of session_id s.lanes).callback_active) [
        | inl on ↦ (enter_lane session_id s, refl, inl (rw on))
        | inr off ↦ (enter_lane session_id s, refl, inr (rw off))
      ]

  pub run_stream-seen :
      {A : Type 0} (P : OutboundQueue × Text → Type 0) (session_id : Text) (operation : M W A)
      (s : ServerState W)
      → P (seen s)
      → ((s' : ServerState W) → seen s' ≡ seen s → P (seen (operation s').0))
      → P (seen (run_stream session_id operation s).0)
  run_stream-seen P session_id operation s base inside =
      let (s', same, how) = run_stream-cases session_id operation s in
      elim how [
        | inl e ↦ subst P (sym (ap seen e ∙ leave_lane-seen session_id s' ∙ same)) base
        | inr e ↦
            subst P (sym (ap seen e ∙ leave_lane-seen session_id (operation s').0)) (inside s' same)
      ]

  -- A pure result in the place of a step leaves the state.
  pub of_result-state : {A : Type 0} (r : Result A) (s : ServerState W) → (of_result r s).0 ≡ s
  of_result-state (ok a) s = refl
  of_result-state (err e) s = refl

  pub after_if :
      {B : Type 0} (P : OutboundQueue × Text → Type 0) (b : Bool) (m n : M W B) (s : ServerState W)
      → (b ≡ true → P (seen (m s).0))
      → (b ≡ false → P (seen (n s).0))
      → P (seen ((if b then m else n) s).0)
  after_if P true m n s taken skipped = taken refl
  after_if P false m n s taken skipped = skipped refl

  pub after_pure :
      {A B : Type 0} (P : OutboundQueue × Text → Type 0) (r : Result A) (next : A → M W B)
      (s : ServerState W)
      → P (seen s)
      → ((a : A) → r ≡ ok a → P (seen (next a s).0))
      → P (seen ((of_result r >>= next) s).0)
  after_pure P (ok a) next s stopped returned = returned a refl
  after_pure P (err e) next s stopped returned = stopped

  pub build-seen :
      (json : Json) (config : ServerConfig)
      (call : List Text → StateSnapshotLimits → W → W × Ending (List StateObject))
      (session_id frame_id : Text) (timestamp : ℤ) (namespaces : List Text) (s : ServerState W)
      → seen
          (build_resume_state_snapshot json config call session_id frame_id timestamp namespaces
            s).0
        ≡ seen s
  unfolding build_resume_state_snapshot
  build-seen json config call session_id frame_id timestamp namespaces s =
      let frame = snapshot_frame session_id frame_id timestamp in
      let P : OutboundQueue × Text → Type 0 = λ x. x ≡ seen s in
      after_pure P (state_snapshot_limits json config frame)
        (λ bounds. lane_callback session_id (call namespaces bounds) >>= λ states.
          of_result (resume_snapshot json config frame bounds namespaces states))
        s refl
        (λ bounds e.
          after_bind P (lane_callback session_id (call namespaces bounds))
            (λ states. of_result (resume_snapshot json config frame bounds namespaces states)) s
            (λ states e'.
              ap seen (
                of_result-state (resume_snapshot json config frame bounds namespaces states)
                  (lane_callback session_id (call namespaces bounds) s).0)
              ∙ lane_callback-seen session_id (call namespaces bounds) s)
            (lane_callback-seen session_id (call namespaces bounds) s))

module _ {W : Type 0} (json : Json) (config : ServerConfig) (services : Services W) where
  pub enqueue_error_at-ready :
      (session_id ref_id : Text) (code : ErrorCode) (message : Text) (retryable : Bool)
      (timestamp : ℤ) (s : ServerState W)
      → (enqueue_error_at json config services session_id ref_id code message retryable timestamp
          s).0.result
        ≡ s.result
  unfolding enqueue_error_at enqueue_frame enqueue_batch
  enqueue_error_at-ready session_id ref_id code message retryable timestamp s = ground arith
