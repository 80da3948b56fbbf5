-- ===== src/Server/Contests/Keeping.antt =====
-- server.go: the critical sections of invokeSendCallback and setFlightACK keep the table's flights.
use kmtproto.Prelude.{◌<◌, ◌≡◌, sym, ◌∙◌, subst, ◌⊎◌, Text, text_instance, arith}
use kmtproto.Wire.{Envelope}
use kmtproto.Server.Types.{FlightRef, ServerState}
use kmtproto.Server.Callbacks.{begin_send_callback, end_send_callback, set_flight_ack}
use kmtproto.Server.Flights.{In, number_at, begin-number, end-number, ack-number}
use kmtproto.Server.Contests.{Contest, IsLed}

module _ {W : Type 0} where
  -- Nobody else's business: the table keeps the numbers of its flights.
  pub same-IsLed :
      (c : Contest W) (server : ServerState W)
      → ((key : Text) → number_at key server.flights ≡ number_at key c.server.flights)
      → server.next_flight ≡ c.server.next_flight
      → server.done ≡ c.server.done
      → IsLed c
      → IsLed (record c { server = server })
  same-IsLed c server same next done h = record {
    held = λ r i. same r.key ∙ h.held r i;
    led = λ key n e. h.led key n (sym (same key) ∙ e);
    alone = h.alone;
    awaited = λ r i. subst (λ d. In r c.leaders ⊎ In r.number d) (sym done) (h.awaited r i);
    unfinished = λ r i. subst (λ d. ¬ In r.number d) (sym done) (h.unfinished r i);
    numbered = λ r i. subst (λ n. r.number < n) (sym next) (h.numbered r i);
    numbered_done = λ n i. subst (λ m. n < m) (sym next) (h.numbered_done n (subst (In n) done i));
  }

  pub begins-IsLed :
      (own : FlightRef) (c : Contest W)
      → IsLed c
      → IsLed (record c { server = (begin_send_callback own c.server).0 })
  unfolding begin_send_callback
  begins-IsLed own c =
      same-IsLed c (begin_send_callback own c.server).0 (λ key. begin-number own key c.server)
        (ground arith) (ground arith)

  pub returns-IsLed :
      (own : FlightRef) (c : Contest W)
      → IsLed c
      → IsLed (record c { server = end_send_callback own c.server })
  unfolding end_send_callback
  returns-IsLed own c =
      same-IsLed c (end_send_callback own c.server) (λ key. end-number own key c.server)
        (ground arith) (ground arith)

  pub stores-IsLed :
      (own : FlightRef) (ack : Envelope) (c : Contest W)
      → IsLed c
      → IsLed (record c { server = (set_flight_ack own ack c.server).0 })
  unfolding set_flight_ack
  stores-IsLed own ack c =
      same-IsLed c (set_flight_ack own ack c.server).0 (λ key. ack-number own key c.server ack)
        (ground arith) (ground arith)
