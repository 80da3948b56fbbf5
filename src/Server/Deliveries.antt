-- ===== src/Server/Deliveries.antt =====
-- handleSend: the application gets a SEND only under a claim that was won.
use kmtproto.Prelude.{
  ℕ, ℤ, ◌≡◌, ◌≢◌, refl, sym, subst, Bool, true, false, Text, Option, none, some, unix_milli, arith,
  if◌then◌else◌,
}
use kmtproto.Wire.{Envelope, Json, invalid_session, decode_payload}
use kmtproto.Store.{DedupRecord, SessionState, dedup_key}
use kmtproto.Server.Types.{FlightRef, Ending, returns, Services, ServerConfig, ServerState}
use kmtproto.Server.Monad.{M, of_result, perform}
use kmtproto.Server.Effects.{state_after, of_result-state}
use kmtproto.Server.Worlds.{
  callback-out, callback-world, acquire_flight-world, finish_flight-world, enqueue_error_at-world,
  resend_ack-world, refuse-world, answer_existing-world,
}
use kmtproto.Server.Callbacks.{
  invoke_send_callback, acquire_flight, finish_flight, Acquired, leads, follows, conflicts,
}
use kmtproto.Server.Sends.{
  resend_ack, refuse, answer_claim, answer_known, answer_role, answer_waiting, answer_active,
  wait_for_original, lead_flight, answer_flight, abandon, handle_send,
}

lost_claim :
    (won : Bool × Option DedupRecord) (c : Ending (Bool × Option DedupRecord))
    → c ≡ returns won
    → ((o : Option DedupRecord) → c ≢ returns (true, o))
    → won.0 ≡ false
lost_claim (false, o) c e loses = refl
lost_claim (true, o) c e loses = (let no = loses o in ground (arith, no, e))

-- A fact about the collaborators that no call of them breaks before the application is called, and under which
-- no claim of the SEND is won.
pub record IsSpared {W : Type 0} (services : Services W) (frame : Envelope) (I : W → Type 0)
    : Type 0 where
  pub ticks : (w : W) → I w → I (services.now w).0
  pub looks :
      (session_id : Text) (now : ℕ) (w : W) → I w → I (services.lookup_session session_id now w).0
  pub claims :
      (fingerprint : Text) (w : W)
      → I w
      → I (services.claim frame.session_id frame.id fingerprint w).0
  pub waits : (key : Text) (w : W) → I w → I (services.await_flight key w).0
  pub loses :
      (fingerprint : Text) (w : W) (o : Option DedupRecord)
      → I w
      → (services.claim frame.session_id frame.id fingerprint w).1 ≢ returns (true, o)

module _ {W : Type 0} (json : Json) (config : ServerConfig) (services : Services W)
    (frame : Envelope) (I : W → Type 0) (spared : IsSpared services frame I) where
  answer_claim-spares :
      (own : FlightRef) (content fingerprint : Text) (timestamp : ℤ)
      (won : Bool × Option DedupRecord) (s : ServerState W)
      → won.0 ≡ false
      → I s.world
      → I (answer_claim json config services own frame content fingerprint timestamp won s).0.world
  answer_claim-spares own content fingerprint timestamp (true, o) s lost kept = ground arith
  answer_claim-spares own content fingerprint timestamp (false, o) s lost kept =
      subst I (sym (answer_existing-world json config services own frame fingerprint timestamp o s))
        kept

  answer_known-spares :
      (own : FlightRef) (content fingerprint : Text) (timestamp : ℤ) (session : Option SessionState)
      (s : ServerState W)
      → I s.world
      → I
          (answer_known json config services own frame content fingerprint timestamp session
            s).0.world
  answer_known-spares own content fingerprint timestamp none s kept =
      subst I
        (sym (
          enqueue_error_at-world json config services frame.session_id frame.id invalid_session _
            false timestamp (abandon json config services s).0))
        kept
  answer_known-spares own content fingerprint timestamp (some session) s kept =
      let call = services.claim frame.session_id frame.id fingerprint in
      let m : M W (Bool × Option DedupRecord) = invoke_send_callback own call in
      let after = callback-world I own call s kept (spared.claims fingerprint s.world kept) in
      state_after (λ s'. I s'.world) m
        (answer_claim json config services own frame content fingerprint timestamp) s
        (λ won e.
          answer_claim-spares own content fingerprint timestamp won (m s).0
            (lost_claim won (call s.world).1 (callback-out own call won s e)
              (λ o. spared.loses fingerprint s.world o kept))
            after)
        after

  lead_flight-spares :
      (own : FlightRef) (content fingerprint : Text) (now : ℕ) (s : ServerState W)
      → I s.world
      → I (lead_flight json config services own frame content fingerprint now s).0.world
  unfolding lead_flight
  lead_flight-spares own content fingerprint now s kept =
      let call = services.lookup_session frame.session_id now in
      let m : M W (Option SessionState) = invoke_send_callback own call in
      let after =
        callback-world I own call s kept (spared.looks frame.session_id now s.world kept) in
      state_after (λ s'. I s'.world) m
        (answer_known json config services own frame content fingerprint (unix_milli now)) s
        (λ session e.
          answer_known-spares own content fingerprint (unix_milli now) session (m s).0 after)
        after

  resend-spares :
      (a : Envelope) (s : ServerState W)
      → I s.world
      → I (resend_ack json config services frame a s).0.world
  resend-spares a s kept = subst I (sym (resend_ack-world json config services frame a s)) kept

  refuse-spares :
      (message : Text) (retryable : Bool) (timestamp : ℤ) (s : ServerState W)
      → I s.world
      → I (refuse json config services frame message retryable timestamp s).0.world
  refuse-spares message retryable timestamp s kept =
      subst I (sym (refuse-world json config services frame message retryable timestamp s)) kept

  answer_waiting-spares :
      (timestamp : ℤ) (o : Option Envelope) (s : ServerState W)
      → I s.world
      → I (answer_waiting json config services frame timestamp o s).0.world
  answer_waiting-spares timestamp (some a) s kept = resend-spares a s kept
  answer_waiting-spares timestamp none s kept = refuse-spares _ true timestamp s kept

  answer_active-spares :
      (timestamp : ℤ) (o : Option Envelope) (s : ServerState W)
      → I s.world
      → I (answer_active json config services frame timestamp o s).0.world
  answer_active-spares timestamp (some a) s kept = resend-spares a s kept
  answer_active-spares timestamp none s kept = refuse-spares _ true timestamp s kept

  wait-spares :
      (key : Text) (timestamp : ℤ) (s : ServerState W)
      → I s.world
      → I (wait_for_original json config services key frame timestamp s).0.world
  unfolding wait_for_original
  wait-spares key timestamp s kept =
      let m : M W (Option Envelope) = perform (services.await_flight key) in
      let after = spared.waits key s.world kept in
      state_after (λ s'. I s'.world) m (answer_waiting json config services frame timestamp) s
        (λ o e. answer_waiting-spares timestamp o (m s).0 after) after

  answer_role-spares :
      (key content fingerprint : Text) (now : ℕ) (role : Acquired) (s : ServerState W)
      → I s.world
      → I (answer_role json config services key frame content fingerprint now role s).0.world
  unfolding finish_flight
  answer_role-spares key content fingerprint now conflicts s kept =
      refuse-spares _ false (unix_milli now) s kept
  answer_role-spares key content fingerprint now (leads own) s kept =
      subst I
        (sym (
          finish_flight-world own
            (lead_flight json config services own frame content fingerprint now s).0))
        (lead_flight-spares own content fingerprint now s kept)
  answer_role-spares key content fingerprint now (follows flight) s kept =
      elim flight.callback_active
        as (λ b.
          I
            ((if b
                then answer_active json config services frame (unix_milli now) flight.ack
                else wait_for_original json config services key frame (unix_milli now))
              s).0.world) [
                | true ↦ answer_active-spares (unix_milli now) flight.ack s kept
                | false ↦ wait-spares key (unix_milli now) s kept
              ]

  answer_flight-spares :
      (key content fingerprint : Text) (now : ℕ) (s : ServerState W)
      → I s.world
      → I (answer_flight json config services key frame content fingerprint now s).0.world
  answer_flight-spares key content fingerprint now s kept =
      let m : M W Acquired = acquire_flight key fingerprint in
      let after = subst I (sym (acquire_flight-world key fingerprint s)) kept in
      state_after (λ s'. I s'.world) m
        (answer_role json config services key frame content fingerprint now) s
        (λ role e. answer_role-spares key content fingerprint now role (m s).0 after) after

-- A SEND reaches the application, and its completion reaches the store, only under a claim that was won: if the
-- clock, the session look-ups, the claims of the SEND and the waits on its flight keep a fact about the
-- collaborators, and no claim of the SEND is won where it holds, then it still holds after handleSend, however
-- that ends.
pub handle_send-spares :
    {W : Type 0} (json : Json) (config : ServerConfig) (services : Services W) (frame : Envelope)
    (I : W → Type 0) (s : ServerState W)
    → IsSpared services frame I
    → I s.world
    → I (handle_send json config services frame s).0.world
unfolding handle_send
handle_send-spares {W = W} json config services frame I s spared kept =
    let begun = record s { world = (services.now s.world).0 } in
    let now = (services.now s.world).1 in
    let ticked = spared.ticks s.world kept in
    let decoded : M W Text =
      of_result (decode_payload json json.decode_send config.strict frame.payload) in
    let same =
      of_result-state (decode_payload json json.decode_send config.strict frame.payload) begun in
    let after = subst (λ s'. I s'.world) (sym same) ticked in
    state_after (λ s'. I s'.world) decoded
      (λ content.
        answer_flight json config services (dedup_key frame.session_id frame.id) frame content
          (services.sum256 content) now)
      begun
      (λ content e.
        answer_flight-spares json config services frame I spared
          (dedup_key frame.session_id frame.id) content (services.sum256 content) now
          (decoded begun).0 after)
      after
