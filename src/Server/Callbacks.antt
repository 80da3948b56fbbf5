-- ===== src/Server/Callbacks.antt =====
-- server.go: flights of SENDs, lanes of Sessions, and the calls of collaborators under them.
use kmtproto.Prelude.{
  suc, ◌-◌, nat_beq, true, false, Text, ◌∷◌, ◌++◌, Option, none, some, Map, lookup, insert, delete,
  text_eq, text_instance, lit, if◌then◌else◌,
}
use kmtproto.Wire.{Envelope, Err, plain}
use kmtproto.Server.Types.{
  Ending, returns, errors, panics, FlightRef, SendFlight, StreamLane, ServerState,
}
use kmtproto.Server.Monad.{M, perform, ◌>>=◌}

-- What `acquireFlight` finds: a flight of the caller's own, another one of the same content, or a conflict.
pub data Acquired : Type 0 where
  leads : FlightRef → Acquired
  conflicts : Acquired
  follows : SendFlight → Acquired

abbrev pub stream_callback_active : Err
stream_callback_active = plain (lit "kmtproto: session stream callback is active")

-- `recover()`: a panic becomes an error.
abbrev pub recovered {ℓ} : {A : Type ℓ} → Text → Ending A → Ending A
recovered message (returns a) = returns a
recovered message (errors e) = errors e
recovered message (panics t) = errors (plain (message ++ t))

unfoldable pub lane_of : Text → Map Text StreamLane → StreamLane
unfolding lookup
lane_of session_id lanes = elim (lookup session_id lanes) [
  | none ↦ record { callback_active = false; users = 0 }
  | some lane ↦ lane
]

-- `s.flights[key]`, if it is still the caller's flight.
unfoldable pub own_flight : FlightRef → Map Text SendFlight → Option SendFlight
unfolding lookup
own_flight own flights = elim (lookup own.key flights) [
  | none ↦ none
  | some flight ↦ if nat_beq flight.number own.number then some flight else none
]

module _ {W : Type 0} where
  unfoldable pub acquire_flight : Text → Text → M W Acquired
  unfolding lookup insert text_eq
  acquire_flight key fingerprint s = elim (lookup key s.flights) [
    | some flight ↦
        (s, returns (if text_eq flight.fingerprint fingerprint then follows flight else conflicts))
    | none ↦ (
      record s {
        flights =
            insert key
              (record {
                number = s.next_flight;
                fingerprint = fingerprint;
                callback_active = false;
                ack = none;
              })
              s.flights;
        next_flight = suc s.next_flight;
      },
      returns (leads (record { key = key; number = s.next_flight })),
    )
  ]

  -- The flight leaves the table, and its `done` is closed.
  unfoldable pub finish_flight : FlightRef → ServerState W → ServerState W
  unfolding delete own_flight
  finish_flight own s = elim (own_flight own s.flights) [
    | none ↦ s
    | some flight ↦ record s { flights = delete own.key s.flights; done = own.number ∷ s.done }
  ]

  abbrev set_flight : Text → SendFlight → ServerState W → ServerState W
  set_flight key flight s = record s { flights = insert key flight s.flights }

  -- The critical section before the call of a collaborator.
  unfoldable pub begin_send_callback : FlightRef → M W (Unit {0})
  unfolding own_flight insert
  begin_send_callback own s =
      let busy = errors (plain (lit "kmtproto: SEND flight callback is already active")) in
      elim (own_flight own s.flights) [
        | none ↦ (s, busy)
        | some flight ↦
            if flight.callback_active
            then (s, busy)
            else (set_flight own.key (record flight { callback_active = true }) s, returns tt)
      ]

  -- The one behind it. A flight that has left the table is not asked for its callback any more.
  unfoldable pub end_send_callback : FlightRef → ServerState W → ServerState W
  unfolding own_flight insert
  end_send_callback own s = elim (own_flight own s.flights) [
    | none ↦ s
    | some flight ↦ set_flight own.key (record flight { callback_active = false }) s
  ]

  abbrev call_and_end : {A : Type 0} → FlightRef → (W → W × Ending A) → Unit {0} → M W A
  call_and_end own call u s = (
    end_send_callback own (perform call s).0,
    recovered (lit "kmtproto: SEND dependency callback panicked: ") (perform call s).1,
  )

  unfoldable pub invoke_send_callback : {A : Type 0} → FlightRef → (W → W × Ending A) → M W A
  unfolding begin_send_callback end_send_callback
  invoke_send_callback own call = begin_send_callback own >>= call_and_end own call

  unfoldable pub set_flight_ack : FlightRef → Envelope → M W (Unit {0})
  unfolding own_flight insert
  set_flight_ack own ack s = elim (own_flight own s.flights) [
    | none ↦ (s, returns tt)
    | some flight ↦ (set_flight own.key (record flight { ack = some ack }) s, returns tt)
  ]

  abbrev set_lane : Text → StreamLane → ServerState W → ServerState W
  set_lane session_id lane s = record s { lanes = insert session_id lane s.lanes }

  unfoldable pub lane_callback : {A : Type 0} → Text → (W → W × Ending A) → M W A
  unfolding lane_of insert
  lane_callback session_id call s =
      let lane = lane_of session_id s.lanes in
      let (s', out) =
        perform call (set_lane session_id (record lane { callback_active = true }) s) in
      if lane.callback_active
      then (s, errors stream_callback_active)
      else (set_lane session_id (record lane { callback_active = false }) s', out)

  unfoldable pub enter_lane : Text → ServerState W → ServerState W
  unfolding lane_of insert
  enter_lane session_id s =
      let lane = lane_of session_id s.lanes in
      set_lane session_id (record lane { users = suc lane.users }) s

  unfoldable pub leave_lane : Text → ServerState W → ServerState W
  unfolding lane_of insert delete
  leave_lane session_id s =
      let lane = lane_of session_id s.lanes in
      if nat_beq lane.users 1
      then record s { lanes = delete session_id s.lanes }
      else set_lane session_id (record lane { users = lane.users - 1 }) s

  unfoldable pub run_stream : {A : Type 0} → Text → M W A → M W A
  unfolding lane_of enter_lane leave_lane
  run_stream session_id operation s =
      let lane = lane_of session_id s.lanes in
      let entered = enter_lane session_id s in
      let (s', out) = operation entered in
      if lane.callback_active
      then (leave_lane session_id entered, errors stream_callback_active)
      else (leave_lane session_id s', recovered (lit "kmtproto: stream operation panicked: ") out)
