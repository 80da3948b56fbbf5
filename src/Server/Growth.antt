-- ===== src/Server/Growth.antt =====
-- The frames that the processor enqueues: the queue only grows, by frames that pass the validation of
-- outbound frames.
pub mod Sends
pub mod Queries
pub mod Snapshots
pub mod Resumes
pub mod Processing
use mathlib.Core.List.{append_assoc}
use kmtproto.Prelude.{
  ℤ, ◌≡◌, refl, sym, subst, ap, ◌∙◌, Bool, true, false, Bool-cases, inl, inr, Text, List, [], ◌∷◌,
  ◌++◌, All, All-append, ◌&&◌, if◌then◌else◌,
}
use kmtproto.Wire.{Envelope, Json, ok, ErrorCode, behavior_for_error_code}
use kmtproto.Validate.{validate_outbound_frame}
use kmtproto.Outbound.{OutboundQueue, enqueue_batch, close}
use kmtproto.Server.Types.{Services, ServerConfig, ServerState}
use kmtproto.Server.Monad.{M, return, of_result, read_clock}
use kmtproto.Server.Frames.{
  put_batch, close_outbound, enqueue_frame, enqueue_error_at, enqueue_error, error_frame_at,
}
use kmtproto.Server.Effects.{of_result-state}
use kmtproto.Server.Keeping.{
  Keeps, bind-Keeps, then-Keeps, rescue-Keeps, result-Keeps, check-Keeps, if-Keeps, quiet-Keeps,
  of_result-Keeps, lane-Keeps, stream-Keeps,
}

module _ (json : Json) (config : ServerConfig) where
  abbrev pub IsValid : Envelope → Type 0
  IsValid frame = validate_outbound_frame json frame config.limits config.strict ≡ ok tt

  -- The queue holds what it held, and behind it valid frames only.
  pub record Grown (old frames : List Envelope) : Type 0 where
    pub new : List Envelope
    pub sent : frames ≡ old ++ new
    pub valid : All IsValid new

module _ {W : Type 0} (json : Json) (config : ServerConfig) (services : Services W)
    (old : List Envelope) where
  put_batch-frames :
      (batch : List Envelope) (s : ServerState W)
      → (put_batch json config services batch s).0.outbound.frames
        ≡ (enqueue_batch s.outbound batch).0.frames
  unfolding enqueue_batch
  put_batch-frames batch s =
      ap (λ t. t.outbound.frames)
        (of_result-state (enqueue_batch s.outbound batch).1
          (record s { outbound = (enqueue_batch s.outbound batch).0 }))

  abbrev pub GrownQueue : OutboundQueue → Type 0
  GrownQueue q = Grown json config old q.frames

  -- Every frame that a method enqueues is valid.
  abbrev pub IsSound : {A : Type 0} → M W A → Type 0
  IsSound m = Keeps GrownQueue m

  append-Grown :
      (frames batch : List Envelope)
      → All (IsValid json config) batch
      → Grown json config old frames
      → Grown json config old (frames ++ batch)
  append-Grown frames batch fine h = record {
    new = h.new ++ batch;
    sent = ap (λ l. l ++ batch) h.sent ∙ append_assoc old h.new batch;
    valid = All-append (IsValid json config) h.new batch h.valid fine;
  }

  batch-Grown :
      (closed : Bool) (frames batch : List Envelope)
      → All (IsValid json config) batch
      → Grown json config old frames
      → Grown json config old
          (enqueue_batch (record { frames = frames; closed = closed }) batch).0.frames
  unfolding enqueue_batch
  batch-Grown true frames batch fine h = h
  batch-Grown false frames batch fine h = append-Grown frames batch fine h

  pub put_batch-IsSound :
      (batch : List Envelope)
      → All (IsValid json config) batch
      → IsSound (put_batch json config services batch)
  put_batch-IsSound batch fine = record {
    at = λ s h.
        subst (Grown json config old) (sym (put_batch-frames batch s))
          (batch-Grown s.outbound.closed s.outbound.frames batch fine h);
  }

  pub enqueue_frame-IsSound :
      (frame : Envelope) → IsSound (enqueue_frame json config services frame)
  unfolding enqueue_frame
  enqueue_frame-IsSound frame =
      check-Keeps GrownQueue (validate_outbound_frame json frame config.limits config.strict)
        (put_batch json config services (frame ∷ []))
        (λ fine. put_batch-IsSound (frame ∷ []) (fine, tt))

  pub close_outbound-IsSound : IsSound (close_outbound json config services)
  unfolding close
  close_outbound-IsSound = record {
    at = λ s h. record { new = h.new; sent = h.sent; valid = h.valid };
  }

  pub enqueue_error_at-IsSound :
      (session_id ref_id : Text) (code : ErrorCode) (message : Text) (retryable : Bool)
      (timestamp : ℤ)
      → IsSound
          (enqueue_error_at json config services session_id ref_id code message retryable timestamp)
  unfolding enqueue_error_at
  enqueue_error_at-IsSound session_id ref_id code message retryable timestamp =
      search (then-Keeps, if-Keeps, enqueue_frame-IsSound, close_outbound-IsSound, quiet-Keeps)

  pub enqueue_error-IsSound :
      (session_id ref_id : Text) (code : ErrorCode) (message : Text) (retryable : Bool)
      → IsSound (enqueue_error json config services session_id ref_id code message retryable)
  unfolding enqueue_error
  enqueue_error-IsSound session_id ref_id code message retryable =
      search (bind-Keeps, enqueue_error_at-IsSound, quiet-Keeps)

pub ruleset sound_rules = (
  bind-Keeps, then-Keeps, rescue-Keeps, result-Keeps, check-Keeps, if-Keeps, quiet-Keeps,
  of_result-Keeps, lane-Keeps, stream-Keeps, enqueue_frame-IsSound, enqueue_error_at-IsSound,
  enqueue_error-IsSound, close_outbound-IsSound,
)
