-- ===== src/Client/Redelivery.antt =====
-- EVENTs that arrive twice.
use kmtproto.Prelude.{
  refl, Text, lookup, some, ◌≤◌, ◌∷◌, ℕ, ◌+◌, ◌-◌, ◌<◌, ◌^◌, ◌≡◌, text_eq, [], insert,
  lookup-insert, lookup-delete, nat_eq, if◌then◌else◌, arith,
}
use kmtproto.Wire.{Json, Envelope, ready, ok, err, protocol_conflict}
use kmtproto.Client.{Client, done, deliver_event, remember_event, handle_event}

delivered_once :
    (json : Json) (c : Client) (frame : Envelope) (now : ℕ)
    → c.state ≡ ready
    → frame.seq ≡ c.last_seq + 1
    → frame.seq < 2 ^ 64
    → handle_event json c frame now
      ≡ done
          (remember_event (record c { last_seq = frame.seq }) frame.seq frame.id)
          (deliver_event frame ∷ [])
unfolding handle_event
delivered_once json c frame now r next fits = ground (arith, r, next, fits)

remembered :
    (c : Client) (seq : ℕ) (id : Text)
    → 0 < c.config.event_identity_window
    → lookup seq (remember_event c seq id).event_ids ≡ some id
unfolding remember_event
remembered c seq id window = ground (
  arith,
  window,
  lookup-insert seq seq id c.event_ids,
  lookup-delete (seq - c.config.event_identity_window) seq (insert seq id c.event_ids),
)

stays_ready :
    (c : Client) (seq : ℕ) (id : Text) → c.state ≡ ready → (remember_event c seq id).state ≡ ready
unfolding remember_event
stays_ready c seq id r = r

last_kept : (c : Client) (seq : ℕ) (id : Text) → (remember_event c seq id).last_seq ≡ c.last_seq
unfolding remember_event
last_kept c seq id = refl

known_again :
    (json : Json) (c : Client) (again : Envelope) (later : ℕ) (id : Text)
    → c.state ≡ ready
    → again.seq ≤ c.last_seq
    → lookup again.seq c.event_ids ≡ some id
    → handle_event json c again later
      ≡ (c, if text_eq id again.id then ok [] else err protocol_conflict)
unfolding handle_event
known_again json c again later id r old known = ground (arith, r, old, known)

-- After the next EVENT was delivered in READY, with a window that retains at least one identity: a frame
-- with the same sequence changes nothing. It is silently accepted if it carries the same id, and is
-- ErrProtocolConflict otherwise.
pub handle_event-redelivered :
    (json : Json) (c : Client) (frame again : Envelope) (now later : ℕ)
    → c.state ≡ ready
    → frame.seq ≡ c.last_seq + 1
    → frame.seq < 2 ^ 64
    → 0 < c.config.event_identity_window
    → again.seq ≡ frame.seq
    → let c' = (handle_event json c frame now).0 in
      handle_event json c' again later
      ≡ (c', if text_eq frame.id again.id then ok [] else err protocol_conflict)
handle_event-redelivered json c frame again now later r next fits window same =
    let c' = remember_event (record c { last_seq = frame.seq }) frame.seq frame.id in
    rw (delivered_once json c frame now r next fits) (
      known_again json c' again later frame.id
        (stays_ready (record c { last_seq = frame.seq }) frame.seq frame.id r)
        (omega (arith, same, last_kept (record c { last_seq = frame.seq }) frame.seq frame.id))
        (rw same (remembered (record c { last_seq = frame.seq }) frame.seq frame.id window)))
