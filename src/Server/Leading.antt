-- ===== src/Server/Leading.antt =====
-- server.go: acquireFlight, the two critical sections of invokeSendCallback, setFlightACK and finishFlight, called
-- by any number of SENDs. Between the critical sections of one call those of all the others come in.
use kmtproto.Prelude.{
  ◌≡◌, refl, sym, subst, inl, inr, List, [], ◌∷◌, ◌++◌, some, lookup, text_instance, arith,
}
use kmtproto.Server.Flights.{In, number_at, Distinct}
use kmtproto.Server.Contests.Keeping.{same-IsLed, begins-IsLed, returns-IsLed, stores-IsLed}
use kmtproto.Server.Contests.Closing.{ended-closed, closed-IsLed}
use kmtproto.Server.Contests.Joining.{joins-IsLed}
use kmtproto.Server.Contests.{
  Contest, Event, joins, begins, runs, returns_from, stores, ends, leaves, Events, still, more,
  IsLed,
}

In-middle :
    {A : Type 0} (x y : A) (before after : List A)
    → In x (before ++ after)
    → In x (before ++ y ∷ after)
In-middle x y [] after h = inr h
In-middle x y (z ∷ before) after (inl e) = inl e
In-middle x y (z ∷ before) after (inr h) = inr (In-middle x y before after h)

module _ {W : Type 0} where
  Event-IsLed : {c d : Contest W} → Event c d → IsLed c → IsLed d
  Event-IsLed (joins key fingerprint c) h = joins-IsLed key fingerprint c h
  Event-IsLed (begins own c leading) h = begins-IsLed own c h
  Event-IsLed (runs world c) h =
      same-IsLed c (record c.server { world = world }) (λ key. refl) refl refl h
  Event-IsLed (returns_from own c leading) h = returns-IsLed own c h
  Event-IsLed (stores own ack c leading) h = stores-IsLed own ack c h
  Event-IsLed (ends own c leading) h =
      subst IsLed (sym (ended-closed own c leading h)) (closed-IsLed own c leading h)
  Event-IsLed (leaves before after own c e) h = record {
    held = h.held;
    led = h.led;
    alone = h.alone;
    awaited = λ r i. h.awaited r (subst (In r) (sym e) (In-middle r own before after i));
    unfinished = h.unfinished;
    numbered = h.numbered;
    numbered_done = h.numbered_done;
  }

  -- However the critical sections of any SENDs interleave, with the calls of collaborators between them, from an
  -- empty table on: the flights in the table are exactly those that are led, each by one call of handleSend; a call
  -- that waits does so for a flight that is led or whose `done` is closed; and no `done` is closed while its flight
  -- is led.
  pub Events-IsLed :
      {c d : Contest W}
      → c.server.flights ≡ []
      → c.server.done ≡ []
      → c.leaders ≡ []
      → c.waiting ≡ []
      → Events c d
      → IsLed d
  unfolding lookup
  Events-IsLed {c} empty fresh nobody calm still = record {
    held = λ r i. absurd (subst (In r) nobody i);
    led = λ key n e. ground (arith, subst (λ m. number_at key m ≡ some n) empty e);
    alone = subst Distinct (sym nobody) tt;
    awaited = λ r i. absurd (subst (In r) calm i);
    unfinished = λ r i. absurd (subst (In r) nobody i);
    numbered = λ r i. absurd (subst (In r) nobody i);
    numbered_done = λ n i. absurd (subst (In n) fresh i);
  }
  Events-IsLed empty fresh nobody calm (more before event) =
      Event-IsLed event (Events-IsLed empty fresh nobody calm before)
