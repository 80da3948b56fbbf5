-- ===== src/Server/Worlds.antt =====
-- handleSend: the steps that call no collaborator leave their state alone.
use kmtproto.Prelude.{
  ◌⊎◌, inl, inr, ℤ, ◌≡◌, sym, subst, Bool, true, false, Text, Option, none, some, arith, lit,
}
use kmtproto.Wire.{Envelope, Json, ErrorCode}
use kmtproto.Store.{DedupRecord}
use kmtproto.Outbound.{enqueue_batch}
use kmtproto.Server.Types.{FlightRef, Ending, returns, Services, ServerConfig, ServerState}
use kmtproto.Server.Frames.{enqueue_frame, enqueue_error_at}
use kmtproto.Server.Callbacks.{invoke_send_callback, acquire_flight, finish_flight, set_flight_ack}
use kmtproto.Server.Sends.{resend_ack, refuse, answer_completed, answer_existing}

module _ {W : Type 0} where
  pub callback-out :
      {A : Type 0} (own : FlightRef) (call : W → W × Ending A) (a : A) (s : ServerState W)
      → (invoke_send_callback own call s).1 ≡ returns a
      → (call s.world).1 ≡ returns a
  unfolding invoke_send_callback
  callback-out own call a s e = ground arith

  callback-worlds :
      {A : Type 0} (own : FlightRef) (call : W → W × Ending A) (s : ServerState W)
      → ((invoke_send_callback own call s).0.world ≡ s.world)
        ⊎ ((invoke_send_callback own call s).0.world ≡ (call s.world).0)
  unfolding invoke_send_callback
  callback-worlds own call s = ground arith

  pub callback-world :
      {A : Type 0} (I : W → Type 0) (own : FlightRef) (call : W → W × Ending A) (s : ServerState W)
      → I s.world
      → I (call s.world).0
      → I (invoke_send_callback own call s).0.world
  callback-world I own call s before after = elim (callback-worlds own call s) [
    | inl e ↦ subst I (sym e) before
    | inr e ↦ subst I (sym e) after
  ]

  pub acquire_flight-world :
      (key fingerprint : Text) (s : ServerState W)
      → (acquire_flight key fingerprint s).0.world ≡ s.world
  unfolding acquire_flight
  acquire_flight-world key fingerprint s = ground arith

  set_flight_ack-world :
      (own : FlightRef) (a : Envelope) (s : ServerState W)
      → (set_flight_ack own a s).0.world ≡ s.world
  unfolding set_flight_ack
  set_flight_ack-world own a s = ground arith

  -- The end of a flight concerns neither the collaborators nor the queue.
  pub finish_flight-world :
      (own : FlightRef) (s : ServerState W) → (finish_flight own s).world ≡ s.world
  unfolding finish_flight
  finish_flight-world own s = ground arith

  pub finish_flight-outbound :
      (own : FlightRef) (s : ServerState W) → (finish_flight own s).outbound ≡ s.outbound
  unfolding finish_flight
  finish_flight-outbound own s = ground arith

module _ {W : Type 0} (json : Json) (config : ServerConfig) (services : Services W) where
  enqueue_frame-world :
      (frame : Envelope) (s : ServerState W)
      → (enqueue_frame json config services frame s).0.world ≡ s.world
  unfolding enqueue_frame enqueue_batch
  enqueue_frame-world frame s = ground arith

  pub enqueue_error_at-world :
      (session_id ref_id : Text) (code : ErrorCode) (message : Text) (retryable : Bool)
      (timestamp : ℤ) (s : ServerState W)
      → (enqueue_error_at json config services session_id ref_id code message retryable timestamp
          s).0.world
        ≡ s.world
  unfolding enqueue_error_at enqueue_frame enqueue_batch
  enqueue_error_at-world session_id ref_id code message retryable timestamp s = ground arith

  pub resend_ack-world :
      (frame a : Envelope) (s : ServerState W)
      → (resend_ack json config services frame a s).0.world ≡ s.world
  resend_ack-world frame a s = let kept = enqueue_frame-world a s in ground (arith, kept)

  pub refuse-world :
      (frame : Envelope) (message : Text) (retryable : Bool) (timestamp : ℤ) (s : ServerState W)
      → (refuse json config services frame message retryable timestamp s).0.world ≡ s.world
  refuse-world frame message retryable timestamp s =
      enqueue_error_at-world frame.session_id frame.id _ message retryable timestamp s

  answer_completed-world :
      (own : FlightRef) (frame : Envelope) (timestamp : ℤ) (o : Option Envelope) (s : ServerState W)
      → (answer_completed json config services own frame timestamp o s).0.world ≡ s.world
  answer_completed-world own frame timestamp none s = refuse-world frame _ true timestamp s
  answer_completed-world own frame timestamp (some a) s =
      let marked = set_flight_ack-world own a s in
      let sent = enqueue_frame-world a (set_flight_ack own a s).0 in ground (arith, marked, sent)

  pub answer_existing-world :
      (own : FlightRef) (frame : Envelope) (fingerprint : Text) (timestamp : ℤ)
      (o : Option DedupRecord) (s : ServerState W)
      → (answer_existing json config services own frame fingerprint timestamp o s).0.world ≡ s.world
  answer_existing-world own frame fingerprint timestamp none s =
      refuse-world frame _ true timestamp s
  answer_existing-world own frame fingerprint timestamp (some old) s =
      let reused =
        refuse-world frame (lit "SEND id was reused with different content") false timestamp s in
      let busy =
        refuse-world frame (lit "SEND is still processing; retry with the same id") true timestamp
          s in
      let done = answer_completed-world own frame timestamp old.ack s in
      ground (arith, reused, busy, done)
