-- ===== src/Server/Sends.antt =====
-- server.go: handleSend, waitForOriginal, and the checks on a stored ACK.
use kmtproto.Prelude.{
  ℕ, ℤ, not, Bool, true, false, Text, [], Option, none, some, unix_milli, text_eq, lit,
  if◌then◌else◌,
}
use kmtproto.Wire.{
  Envelope, ack, wire_version_v2, Json, decode_payload, invalid_session, bad_request, internal,
}
use kmtproto.Validate.{validate_outbound_frame}
use kmtproto.Store.{DedupRecord, SessionState, dedup_key, is_processing}
use kmtproto.Server.Types.{
  FlightRef, Ending, returns, FailPoint, after_claim, after_application, after_complete, Services,
  ServerConfig, ServerState,
}
use kmtproto.Server.Monad.{M, of_result, rescue, read_clock, perform, ◌>>=◌, ◌>>◌}
use kmtproto.Server.Frames.{enqueue_frame, enqueue_error_at}
use kmtproto.Server.Stored.{validate_stored_ack}
use kmtproto.Server.Callbacks.{
  Acquired, leads, conflicts, follows, acquire_flight, finish_flight, invoke_send_callback,
  set_flight_ack,
}

module _ {W : Type 0} (json : Json) (config : ServerConfig) (services : Services W) where
  -- A stored ACK is checked and sent again.
  abbrev pub resend_ack : Envelope → Envelope → M W (Unit {0})
  resend_ack frame stored = do
    of_result (validate_stored_ack json config stored frame.session_id frame.id)
    enqueue_frame json config services stored

  abbrev pub refuse : Envelope → Text → Bool → ℤ → M W (Unit {0})
  refuse frame message retryable timestamp =
      enqueue_error_at json config services frame.session_id frame.id
        (if retryable then internal else bad_request) message retryable timestamp

  abbrev pub answer_waiting : Envelope → ℤ → Option Envelope → M W (Unit {0})
  answer_waiting frame timestamp (some a) = resend_ack frame a
  answer_waiting frame timestamp none =
      refuse frame (lit "original SEND did not complete; retry") true timestamp

  unfoldable pub wait_for_original : Text → Envelope → ℤ → M W (Unit {0})
  unfolding validate_stored_ack
  wait_for_original key frame timestamp =
      perform (services.await_flight key) >>= answer_waiting frame timestamp

  -- `inject`
  abbrev pub inject_at : FailPoint → W → W × Ending (Unit {0})
  inject_at point w = elim services.inject [ none ↦ (w, returns tt) | some call ↦ call point w ]

  abbrev pub pending : Envelope → ℤ → M W (Unit {0})
  pending frame timestamp =
      refuse frame (lit "SEND is still processing; retry with the same id") true timestamp

  abbrev pub answer_completed : FlightRef → Envelope → ℤ → Option Envelope → M W (Unit {0})
  answer_completed own frame timestamp none = pending frame timestamp
  answer_completed own frame timestamp (some a) = do
    of_result (validate_stored_ack json config a frame.session_id frame.id)
    set_flight_ack own a
    enqueue_frame json config services a

  -- After a claim that was not won.
  abbrev pub answer_existing : FlightRef → Envelope → Text → ℤ → Option DedupRecord → M W (Unit {0})
  answer_existing own frame fingerprint timestamp none = pending frame timestamp
  answer_existing own frame fingerprint timestamp (some old) =
      if not (text_eq old.fingerprint fingerprint)
      then refuse frame (lit "SEND id was reused with different content") false timestamp
      else if is_processing old.state
      then pending frame timestamp
      else answer_completed own frame timestamp old.ack

  abbrev pub ack_for : Envelope → ℤ → Envelope
  ack_for frame timestamp = record {
    v = wire_version_v2;
    type = ack;
    id = [];
    session_id = frame.session_id;
    seq = 0;
    timestamp = timestamp;
    payload = json.encode_ack frame.id;
  }

  -- After a claim that was won and the application's success.
  abbrev pub acknowledge : FlightRef → Envelope → ℤ → M W (Unit {0})
  acknowledge own frame timestamp =
      let a = ack_for frame timestamp in
      do
        invoke_send_callback own (inject_at after_application)
        of_result (validate_outbound_frame json a config.limits config.strict)
        invoke_send_callback own (services.complete frame.session_id frame.id a)
        set_flight_ack own a
        invoke_send_callback own (inject_at after_complete)
        enqueue_frame json config services a

  -- The application's error ends in an ERROR frame, and the claim stays PROCESSING.
  abbrev pub apply_once : FlightRef → Envelope → Text → ℤ → M W (Unit {0})
  apply_once own frame content timestamp = do
    invoke_send_callback own (inject_at after_claim)
    rescue (invoke_send_callback own (services.handle_send frame.id content))
        (λ e. refuse frame (lit "application rejected SEND") true timestamp)
        (λ u. acknowledge own frame timestamp)

  abbrev pub abandon : ServerState W → ServerState W × Ending (Unit {0})
  abandon s = (record s { result = record s.result { abandon_session = true } }, returns tt)

  abbrev pub answer_claim :
      FlightRef → Envelope → Text → Text → ℤ → Bool × Option DedupRecord → M W (Unit {0})
  answer_claim own frame content fingerprint timestamp (won, old) =
      if won
      then apply_once own frame content timestamp
      else answer_existing own frame fingerprint timestamp old

  abbrev pub answer_known :
      FlightRef → Envelope → Text → Text → ℤ → Option SessionState → M W (Unit {0})
  answer_known own frame content fingerprint timestamp none = do
    abandon
    enqueue_error_at json config services frame.session_id frame.id invalid_session
        (lit "session expired or unknown") false timestamp
  answer_known own frame content fingerprint timestamp (some session) =
      invoke_send_callback own (services.claim frame.session_id frame.id fingerprint)
      >>= answer_claim own frame content fingerprint timestamp

  -- What the leader of a flight does.
  unfoldable pub lead_flight : FlightRef → Envelope → Text → Text → ℕ → M W (Unit {0})
  unfolding validate_stored_ack
  lead_flight own frame content fingerprint now =
      invoke_send_callback own (services.lookup_session frame.session_id now)
      >>= answer_known own frame content fingerprint (unix_milli now)

  -- `defer s.finishFlight(key, flight)`
  abbrev pub and_finish : FlightRef → M W (Unit {0}) → M W (Unit {0})
  and_finish own m s = (finish_flight own (m s).0, (m s).1)

  abbrev pub answer_active : Envelope → ℤ → Option Envelope → M W (Unit {0})
  answer_active frame timestamp (some a) = resend_ack frame a
  answer_active frame timestamp none =
      refuse frame (lit "SEND callback is active; retry with the same id") true timestamp

  abbrev pub answer_role : Text → Envelope → Text → Text → ℕ → Acquired → M W (Unit {0})
  answer_role key frame content fingerprint now conflicts =
      refuse frame (lit "SEND id was reused with different content") false (unix_milli now)
  answer_role key frame content fingerprint now (leads own) =
      and_finish own (lead_flight own frame content fingerprint now)
  answer_role key frame content fingerprint now (follows flight) =
      if flight.callback_active
      then answer_active frame (unix_milli now) flight.ack
      else wait_for_original key frame (unix_milli now)

  abbrev pub answer_flight : Text → Envelope → Text → Text → ℕ → M W (Unit {0})
  answer_flight key frame content fingerprint now =
      acquire_flight key fingerprint >>= answer_role key frame content fingerprint now

  unfoldable pub handle_send : Envelope → M W (Unit {0})
  unfolding lead_flight wait_for_original
  handle_send frame = do
    now ← read_clock services.now
    content ← of_result (decode_payload json json.decode_send config.strict frame.payload)
    answer_flight (dedup_key frame.session_id frame.id) frame content (services.sum256 content) now
