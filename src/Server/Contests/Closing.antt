-- ===== src/Server/Contests/Closing.antt =====
-- server.go, finishFlight: what is left of the flights.
use kmtproto.Prelude.{
  ℕ, nat_beq, delete, ◌<◌, ◌≡◌, refl, sym, ap, ◌∙◌, subst, ◌⊎◌, inl, inr, Bool-cases, Text, ◌∷◌,
  some, text_eq, text_eq_iff, text_instance, arith,
}
use kmtproto.Server.Types.{FlightRef}
use kmtproto.Server.Callbacks.{finish_flight}
use kmtproto.Server.Flights.{
  In, number_at, without, In-without, without-In, without-Distinct, same_number, number_at-delete,
  own_flight-number,
}
use kmtproto.Server.Contests.{Contest, ended, IsLed}

module _ {W : Type 0} where
  -- The pointer's flight is done: out of the table, and its `done` closed.
  abbrev pub closed : FlightRef → Contest W → Contest W
  closed own c = record c {
    server = record c.server {
      flights = delete own.key c.server.flights;
      done = own.number ∷ c.server.done;
    };
    leaders = without own.number c.leaders;
  }

  -- The flight of a leader is in the table, so its end does its work.
  pub ended-closed :
      (own : FlightRef) (c : Contest W) → In own c.leaders → IsLed c → ended own c ≡ closed own c
  unfolding finish_flight
  ended-closed own c leading h =
      let (f, q) = own_flight-number own c.server.flights (h.held own leading) in
      rw (finish_flight, q) refl

  closed-held :
      (own : FlightRef) (c : Contest W)
      → In own c.leaders
      → IsLed c
      → (r : FlightRef) → In r (without own.number c.leaders)
      → number_at r.key (delete own.key c.server.flights) ≡ some r.number
  closed-held own c leading h r i =
      let (there, differ) = In-without own.number r c.leaders i in
      let mine = h.held own leading in
      let its = h.held r there in
      let after = number_at-delete own.key r.key c.server.flights in
      elim (Bool-cases (text_eq own.key r.key)) [
        | inl same ↦
            let one : own.key ≡ r.key = ground (arith, same, text_eq_iff own.key r.key) in
            let twice : number_at own.key c.server.flights ≡ some r.number =
              subst (λ k. number_at k c.server.flights ≡ some r.number) (sym one) its in
            absurd (differ (ground (arith, mine, twice)))
        | inr other ↦ after ∙ rw other its
      ]

  closed-led :
      (own : FlightRef) (c : Contest W)
      → In own c.leaders
      → IsLed c
      → (key : Text) (n : ℕ) → number_at key (delete own.key c.server.flights) ≡ some n
      → In (record { key = key; number = n }) (without own.number c.leaders)
  closed-led own c leading h key n e =
      let after = number_at-delete own.key key c.server.flights in
      elim (Bool-cases (text_eq own.key key)) [
        | inl same ↦ ground (arith, same, after, e)
        | inr other ↦
            let there = h.led key n (ground (arith, other, after, e)) in
            without-In own.number (record { key = key; number = n }) c.leaders there
              (λ same.
                let one =
                  same_number (record { key = key; number = n }) own c.leaders h.alone there leading
                    same in
                ground (arith, other, text_eq_iff own.key key, ap (λ (r : FlightRef). r.key) one))
      ]

  closed-awaited :
      (own : FlightRef) (c : Contest W)
      → IsLed c
      → (r : FlightRef) → In r c.waiting
      → In r (without own.number c.leaders) ⊎ In r.number (own.number ∷ c.server.done)
  closed-awaited own c h r i = elim (h.awaited r i) [
    | inl there ↦ elim (Bool-cases (nat_beq r.number own.number)) [
      | inl same ↦ inr (inl (ground (arith, same)))
      | inr other ↦ inl (without-In own.number r c.leaders there (ground (arith, other)))
    ]
    | inr done ↦ inr (inr done)
  ]

  pub closed-IsLed :
      (own : FlightRef) (c : Contest W) → In own c.leaders → IsLed c → IsLed (closed own c)
  closed-IsLed own c leading h = record {
    held = closed-held own c leading h;
    led = closed-led own c leading h;
    alone = without-Distinct own.number c.leaders h.alone;
    awaited = closed-awaited own c h;
    unfinished = λ r i d.
        (let (there, differ) = In-without own.number r c.leaders i in
          elim d [ inl e ↦ differ e | inr before ↦ h.unfinished r there before ]);
    numbered = λ r i. h.numbered r (In-without own.number r c.leaders i).0;
    numbered_done = λ n i. elim i [
      | inl e ↦ subst (λ m. m < c.server.next_flight) (sym e) (h.numbered own leading)
      | inr before ↦ h.numbered_done n before
    ];
  }
