-- ===== src/Server/Growth/Sends.antt =====
-- handleSend enqueues valid frames only.
use kmtproto.Prelude.{sym, subst, arith, List, ℕ, ℤ, Text, Option, none, some, Bool}
use kmtproto.Wire.{Envelope, Json}
use kmtproto.Store.{DedupRecord, SessionState}
use kmtproto.Outbound.{OutboundQueue}
use kmtproto.Server.Types.{FlightRef, Ending, Services, ServerConfig}
use kmtproto.Server.Callbacks.{
  Acquired, leads, conflicts, follows, acquire_flight, finish_flight, invoke_send_callback,
  set_flight_ack,
}
use kmtproto.Server.Sends.{
  answer_waiting, wait_for_original, answer_completed, answer_existing, acknowledge, apply_once,
  answer_claim, answer_known, lead_flight, and_finish, answer_active, answer_role, handle_send,
  resend_ack,
}
use kmtproto.Server.Monad.{M}
use kmtproto.Server.Keeping.{Keeps, quiet-Keeps}
use kmtproto.Server.Worlds.{finish_flight-outbound}
use kmtproto.Server.Growth.{IsSound, GrownQueue, sound_rules}

module _ {W : Type 0} (P : OutboundQueue → Type 0) where
  callback-Keeps :
      {A : Type 0} (own : FlightRef) (call : W → W × Ending A)
      → Keeps P (invoke_send_callback own call)
  unfolding invoke_send_callback
  callback-Keeps own call = quiet-Keeps P (invoke_send_callback own call) (λ s. ground arith)

module _ {W : Type 0} (json : Json) (config : ServerConfig) (services : Services W)
    (old : List Envelope) where
  resend_ack-IsSound :
      (frame stored : Envelope)
      → IsSound json config services old (resend_ack json config services frame stored)
  resend_ack-IsSound frame stored = search (sound_rules)

  answer_waiting-IsSound :
      (frame : Envelope) (timestamp : ℤ) (found : Option Envelope)
      → IsSound json config services old (answer_waiting json config services frame timestamp found)
  answer_waiting-IsSound frame timestamp none = search sound_rules
  answer_waiting-IsSound frame timestamp (some a) = search (sound_rules, resend_ack-IsSound)

  wait_for_original-IsSound :
      (key : Text) (frame : Envelope) (timestamp : ℤ)
      → IsSound json config services old
          (wait_for_original json config services key frame timestamp)
  unfolding wait_for_original
  wait_for_original-IsSound key frame timestamp = search (sound_rules, answer_waiting-IsSound)

  set_flight_ack-IsSound :
      (own : FlightRef) (a : Envelope)
      → Keeps (GrownQueue json config services old) (set_flight_ack {W = W} own a)
  unfolding set_flight_ack
  set_flight_ack-IsSound own a =
      quiet-Keeps (GrownQueue json config services old) (set_flight_ack own a) (λ s. ground arith)

  answer_completed-IsSound :
      (own : FlightRef) (frame : Envelope) (timestamp : ℤ) (found : Option Envelope)
      → IsSound json config services old
          (answer_completed json config services own frame timestamp found)
  answer_completed-IsSound own frame timestamp none = search sound_rules
  answer_completed-IsSound own frame timestamp (some a) =
      search (sound_rules, set_flight_ack-IsSound)

  answer_existing-IsSound :
      (own : FlightRef) (frame : Envelope) (fingerprint : Text) (timestamp : ℤ)
      (found : Option DedupRecord)
      → IsSound json config services old
          (answer_existing json config services own frame fingerprint timestamp found)
  answer_existing-IsSound own frame fingerprint timestamp none = search sound_rules
  answer_existing-IsSound own frame fingerprint timestamp (some a) =
      search (sound_rules, answer_completed-IsSound)

  acknowledge-IsSound :
      (own : FlightRef) (frame : Envelope) (timestamp : ℤ)
      → IsSound json config services old (acknowledge json config services own frame timestamp)
  acknowledge-IsSound own frame timestamp =
      search (sound_rules, callback-Keeps, set_flight_ack-IsSound) depth 9

  apply_once-IsSound :
      (own : FlightRef) (frame : Envelope) (content : Text) (timestamp : ℤ)
      → IsSound json config services old
          (apply_once json config services own frame content timestamp)
  apply_once-IsSound own frame content timestamp =
      search (sound_rules, callback-Keeps, acknowledge-IsSound)

  answer_claim-IsSound :
      (own : FlightRef) (frame : Envelope) (content fingerprint : Text) (timestamp : ℤ)
      (found : Bool × Option DedupRecord)
      → IsSound json config services old
          (answer_claim json config services own frame content fingerprint timestamp found)
  answer_claim-IsSound own frame content fingerprint timestamp (won, found) =
      search (sound_rules, apply_once-IsSound, answer_existing-IsSound)

  answer_known-IsSound :
      (own : FlightRef) (frame : Envelope) (content fingerprint : Text) (timestamp : ℤ)
      (found : Option SessionState)
      → IsSound json config services old
          (answer_known json config services own frame content fingerprint timestamp found)
  answer_known-IsSound own frame content fingerprint timestamp none = search sound_rules
  answer_known-IsSound own frame content fingerprint timestamp (some a) =
      search (sound_rules, callback-Keeps, answer_claim-IsSound)

  lead_flight-IsSound :
      (own : FlightRef) (frame : Envelope) (content fingerprint : Text) (now : ℕ)
      → IsSound json config services old
          (lead_flight json config services own frame content fingerprint now)
  unfolding lead_flight
  lead_flight-IsSound own frame content fingerprint now =
      search (sound_rules, callback-Keeps, answer_known-IsSound)

  and_finish-IsSound :
      (own : FlightRef) (m : M W (Unit {0}))
      → IsSound json config services old m
      → IsSound json config services old (and_finish json config services own m)
  unfolding finish_flight
  and_finish-IsSound own m kept = record {
    at = λ s h.
        subst (GrownQueue json config services old) (sym (finish_flight-outbound own (m s).0))
          (kept.at s h);
  }

  answer_active-IsSound :
      (frame : Envelope) (timestamp : ℤ) (found : Option Envelope)
      → IsSound json config services old (answer_active json config services frame timestamp found)
  answer_active-IsSound frame timestamp none = search sound_rules
  answer_active-IsSound frame timestamp (some a) = search (sound_rules, resend_ack-IsSound)

  answer_role-IsSound :
      (key : Text) (frame : Envelope) (content fingerprint : Text) (now : ℕ) (role : Acquired)
      → IsSound json config services old
          (answer_role json config services key frame content fingerprint now role)
  answer_role-IsSound key frame content fingerprint now conflicts = search sound_rules
  answer_role-IsSound key frame content fingerprint now (leads own) =
      search (sound_rules, and_finish-IsSound, lead_flight-IsSound)
  answer_role-IsSound key frame content fingerprint now (follows flight) =
      search (sound_rules, answer_active-IsSound, wait_for_original-IsSound)

  acquire_flight-Keeps :
      (key fingerprint : Text)
      → Keeps (GrownQueue json config services old) (acquire_flight {W = W} key fingerprint)
  unfolding acquire_flight
  acquire_flight-Keeps key fingerprint =
      quiet-Keeps (GrownQueue json config services old) (acquire_flight key fingerprint)
        (λ s. ground arith)

  pub handle_send-IsSound :
      (frame : Envelope) → IsSound json config services old (handle_send json config services frame)
  unfolding handle_send
  handle_send-IsSound frame = search (sound_rules, acquire_flight-Keeps, answer_role-IsSound)
