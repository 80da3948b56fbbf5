-- ===== src/Server/Flights.antt =====
-- server.go: which flight stands under a key, and lists of pointers to flights.
use kmtproto.Prelude.{
  ℕ, nat_beq, ◌≡◌, ◌≢◌, refl, sym, ap, ◌∙◌, subst, ◌⊎◌, inl, inr, Bool-cases, true, false, Text,
  List, [], ◌∷◌, Option, none, some, Option-cases, Map, lookup, insert, delete, lookup-insert,
  lookup-delete, text_eq, text_eq_iff, text_instance, if◌then◌else◌, arith,
}
use kmtproto.Wire.{Envelope}
use kmtproto.Server.Types.{FlightRef, SendFlight, ServerState}
use kmtproto.Server.Callbacks.{own_flight, begin_send_callback, end_send_callback, set_flight_ack}

abbrev pub In : {A : Type 0} → A → List A → Type 0
In a [] = ⊥
In a (x ∷ xs) = (a ≡ x) ⊎ In a xs

-- The number of the flight under a key.
abbrev pub number_at : Text → Map Text SendFlight → Option ℕ
number_at key flights = elim (lookup key flights) [ none ↦ none | some flight ↦ some flight.number ]

-- The pointers but those to one flight.
abbrev pub without : ℕ → List FlightRef → List FlightRef
without n [] = []
without n (r ∷ rs) = if nat_beq r.number n then without n rs else r ∷ without n rs

-- No two pointers to one flight.
abbrev pub Distinct : List FlightRef → Type 0
Distinct [] = Unit
Distinct (r ∷ rs) = ((x : FlightRef) → In x rs → x.number ≢ r.number) × Distinct rs

dropped :
    (n : ℕ) (r : FlightRef) (rs : List FlightRef)
    → nat_beq r.number n ≡ true
    → without n (r ∷ rs) ≡ without n rs
dropped n r rs same = rw same refl

the_rest :
    (n : ℕ) (r : FlightRef) (rs : List FlightRef)
    → nat_beq r.number n ≡ false
    → without n (r ∷ rs) ≡ r ∷ without n rs
the_rest n r rs other = rw other refl

pub In-without :
    (n : ℕ) (x : FlightRef) (rs : List FlightRef) → In x (without n rs) → In x rs × (x.number ≢ n)
In-without n x [] h = absurd h
In-without n x (r ∷ rs) h =
    let rest = In-without n x rs in
    elim (Bool-cases (nat_beq r.number n)) [
      | inl same ↦
          (let (there, differ) = rest (subst (In x) (dropped n r rs same) h) in (inr there, differ))
      | inr other ↦ elim (subst (In x) (the_rest n r rs other) h) [
        | inl e ↦ (inl e, ground (arith, other, ap (λ z. z.number) e))
        | inr there ↦ (let (there', differ) = rest there in (inr there', differ))
      ]
    ]

pub without-In :
    (n : ℕ) (x : FlightRef) (rs : List FlightRef) → In x rs → x.number ≢ n → In x (without n rs)
without-In n x [] h differ = absurd h
without-In n x (r ∷ rs) (inl e) differ =
    let other : nat_beq r.number n ≡ false = ground (arith, differ, ap (λ z. z.number) e) in
    subst (In x) (sym (the_rest n r rs other)) (inl e)
without-In n x (r ∷ rs) (inr h) differ =
    let rest = without-In n x rs h differ in
    elim (Bool-cases (nat_beq r.number n)) [
      | inl same ↦ subst (In x) (sym (dropped n r rs same)) rest
      | inr other ↦ subst (In x) (sym (the_rest n r rs other)) (inr rest)
    ]

pub without-Distinct : (n : ℕ) (rs : List FlightRef) → Distinct rs → Distinct (without n rs)
without-Distinct n [] d = tt
without-Distinct n (r ∷ rs) (apart, d) =
    let rest = without-Distinct n rs d in
    elim (Bool-cases (nat_beq r.number n)) [
      | inl same ↦ rw same rest
      | inr other ↦ rw other ((λ x h. apart x (In-without n x rs h).0), rest)
    ]

pub same_number :
    (x y : FlightRef) (rs : List FlightRef)
    → Distinct rs
    → In x rs
    → In y rs
    → x.number ≡ y.number
    → x ≡ y
same_number x y [] d h f same = absurd h
same_number x y (r ∷ rs) d (inl e) (inl f) same = e ∙ sym f
same_number x y (r ∷ rs) (apart, d) (inl e) (inr f) same =
    absurd (apart y f (sym same ∙ ap (λ z. z.number) e))
same_number x y (r ∷ rs) (apart, d) (inr e) (inl f) same =
    absurd (apart x e (same ∙ ap (λ z. z.number) f))
same_number x y (r ∷ rs) (apart, d) (inr e) (inr f) same = same_number x y rs d e f same

pub number_at-insert :
    (key other : Text) (flight : SendFlight) (flights : Map Text SendFlight)
    → number_at other (insert key flight flights)
      ≡ (if text_eq key other then some flight.number else number_at other flights)
number_at-insert key other flight flights = ground (arith, lookup-insert key other flight flights)

pub number_at-delete :
    (key other : Text) (flights : Map Text SendFlight)
    → number_at other (delete key flights)
      ≡ (if text_eq key other then none else number_at other flights)
number_at-delete key other flights = ground (arith, lookup-delete key other flights)

-- The flight of a pointer stands under its key exactly if its number does.
pub own_flight-number :
    (own : FlightRef) (flights : Map Text SendFlight)
    → number_at own.key flights ≡ some own.number
    → (f : SendFlight) × (own_flight own flights ≡ some f)
unfolding own_flight
own_flight-number own flights e = elim (Option-cases (lookup own.key flights)) [
  | inl q ↦ ground (arith, q, e)
  | inr (f, q) ↦ (f, ground (arith, q, e))
]

-- A flight that is written back with its number.
kept-number :
    (own : FlightRef) (key : Text) (flights : Map Text SendFlight) (f g : SendFlight)
    → own_flight own flights ≡ some f
    → g.number ≡ f.number
    → number_at key (insert own.key g flights) ≡ number_at key flights
unfolding own_flight
kept-number own key flights f g e same =
    let found : lookup own.key flights ≡ some f = ground (arith, e) in
    ground (arith, found, same, number_at-insert own.key key g flights, text_eq_iff own.key key)

module _ {W : Type 0} (own : FlightRef) (key : Text) (s : ServerState W) where
  pub begin-number : number_at key (begin_send_callback own s).0.flights ≡ number_at key s.flights
  unfolding begin_send_callback
  begin-number = elim (Option-cases (own_flight own s.flights)) [
    | inl q ↦ ground (arith, q)
    | inr (f, q) ↦
        ground
          (arith, q, kept-number own key s.flights f (record f { callback_active = true }) q refl)
  ]

  pub end-number : number_at key (end_send_callback own s).flights ≡ number_at key s.flights
  unfolding end_send_callback
  end-number = elim (Option-cases (own_flight own s.flights)) [
    | inl q ↦ ground (arith, q)
    | inr (f, q) ↦
        ground
          (arith, q, kept-number own key s.flights f (record f { callback_active = false }) q refl)
  ]

  pub ack-number :
      (ack : Envelope)
      → number_at key (set_flight_ack own ack s).0.flights ≡ number_at key s.flights
  unfolding set_flight_ack
  ack-number ack = elim (Option-cases (own_flight own s.flights)) [
    | inl q ↦ ground (arith, q)
    | inr (f, q) ↦
        ground (arith, q, kept-number own key s.flights f (record f { ack = some ack }) q refl)
  ]
