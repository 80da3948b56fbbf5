-- ===== src/Server/Contests/Joining.antt =====
-- server.go, acquireFlight: a flight more, or a call more that waits for one.
use kmtproto.Prelude.{
  ℕ, suc, ◌≡◌, refl, sym, ap, ◌∙◌, subst, inl, inr, Bool-cases, Text, ◌∷◌, none, some, Option-cases,
  lookup, insert, text_eq, text_eq_iff, text_instance, if◌then◌else◌, arith, false,
}
use kmtproto.Server.Types.{Ending, FlightRef, SendFlight}
use kmtproto.Server.Callbacks.{conflicts, follows, acquire_flight}
use kmtproto.Server.Flights.{In, number_at, number_at-insert}
use kmtproto.Server.Contests.{Contest, joined, acquires, IsLed}

module _ {W : Type 0} where
  abbrev opened : Text → SendFlight → Contest W → Contest W
  opened key flight c = record c {
    server = record c.server {
      flights = insert key flight c.server.flights;
      next_flight = suc c.server.next_flight;
    };
    leaders = record { key = key; number = c.server.next_flight } ∷ c.leaders;
  }

  opened-held :
      (key : Text) (flight : SendFlight) (c : Contest W)
      → lookup key c.server.flights ≡ none
      → flight.number ≡ c.server.next_flight
      → IsLed c
      → (r : FlightRef) → In r (record { key = key; number = c.server.next_flight } ∷ c.leaders)
      → number_at r.key (insert key flight c.server.flights) ≡ some r.number
  opened-held key flight c free own h r (inl e) =
      subst (λ x. number_at x.key (insert key flight c.server.flights) ≡ some x.number) (sym e)
        (ground (arith, number_at-insert key key flight c.server.flights, text_eq_iff key key, own))
  opened-held key flight c free own h r (inr i) =
      let its = h.held r i in
      let after = number_at-insert key r.key flight c.server.flights in
      elim (Bool-cases (text_eq key r.key)) [
        | inl same ↦
            let one : key ≡ r.key = ground (arith, same, text_eq_iff key r.key) in
            let twice : number_at key c.server.flights ≡ some r.number =
              subst (λ k. number_at k c.server.flights ≡ some r.number) (sym one) its in
            ground (arith, twice, free)
        | inr other ↦ after ∙ rw other its
      ]

  opened-led :
      (key : Text) (flight : SendFlight) (c : Contest W)
      → flight.number ≡ c.server.next_flight
      → IsLed c
      → (k : Text) (n : ℕ) → number_at k (insert key flight c.server.flights) ≡ some n
      → In
          (record { key = k; number = n })
          (record { key = key; number = c.server.next_flight } ∷ c.leaders)
  opened-led key flight c own h k n e =
      let after = number_at-insert key k flight c.server.flights in
      elim (Bool-cases (text_eq key k)) [
        | inl same ↦ inl (ground (arith, same, after, e, own, text_eq_iff key k))
        | inr other ↦ inr (h.led k n (ground (arith, other, after, e)))
      ]

  opened-IsLed :
      (key : Text) (flight : SendFlight) (c : Contest W)
      → lookup key c.server.flights ≡ none
      → flight.number ≡ c.server.next_flight
      → IsLed c
      → IsLed (opened key flight c)
  opened-IsLed key flight c free own h = record {
    held = opened-held key flight c free own h;
    led = opened-led key flight c own h;
    alone = (λ x i. (let below = h.numbered x i in omega (arith, below)), h.alone);
    awaited = λ r i. elim (h.awaited r i) [ inl there ↦ inl (inr there) | inr done ↦ inr done ];
    unfinished = λ r i d. elim i [
      | inl e ↦
          (let below = h.numbered_done r.number d in
            let same = ap (λ (x : FlightRef). x.number) e in omega (arith, below, same))
      | inr before ↦ h.unfinished r before d
    ];
    numbered = λ r i. elim i [
      | inl e ↦ (let same = ap (λ (x : FlightRef). x.number) e in omega (arith, same))
      | inr before ↦ (let below = h.numbered r before in omega (arith, below))
    ];
    numbered_done = λ n i. (let below = h.numbered_done n i in omega (arith, below));
  }

  waits-IsLed :
      (key : Text) (f : SendFlight) (c : Contest W)
      → lookup key c.server.flights ≡ some f
      → IsLed c
      → IsLed (record c { waiting = record { key = key; number = f.number } ∷ c.waiting })
  waits-IsLed key f c found h = record {
    held = h.held;
    led = h.led;
    alone = h.alone;
    awaited = λ r i. elim i [
      | inl e ↦
          inl (subst (λ x. In x c.leaders) (sym e) (h.led key f.number (ground (arith, found))))
      | inr before ↦ h.awaited r before
    ];
    unfinished = h.unfinished;
    numbered = h.numbered;
    numbered_done = h.numbered_done;
  }

  pub joins-IsLed :
      (key fingerprint : Text) (c : Contest W) → IsLed c → IsLed (acquires key fingerprint c)
  unfolding acquire_flight
  joins-IsLed key fingerprint c h = elim (Option-cases (lookup key c.server.flights)) [
    | inl q ↦
        let flight : SendFlight = record {
          number = c.server.next_flight;
          fingerprint = fingerprint;
          callback_active = false;
          ack = none;
        } in
        let same : acquires key fingerprint c ≡ opened key flight c = rw (acquire_flight, q) refl in
        subst IsLed (sym same) (opened-IsLed key flight c q refl h)
    | inr (f, q) ↦
        let role : acquire_flight key fingerprint c.server ≡ (
          c.server,
          Ending.returns (if text_eq f.fingerprint fingerprint then follows f else conflicts),
        ) =
          rw (acquire_flight, q) refl in
        subst (λ p. IsLed (record (joined key p.1 c) { server = p.0 })) (sym role)
          (elim (Bool-cases (text_eq f.fingerprint fingerprint)) [
            | inl fits ↦ elim (Bool-cases f.callback_active) [
              | inl on ↦ rw (fits, on) h
              | inr off ↦ rw (fits, off) (waits-IsLed key f c q h)
            ]
            | inr apart ↦ rw apart h
          ])
  ]
