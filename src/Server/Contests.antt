-- ===== src/Server/Contests.antt =====
-- server.go: acquireFlight, the two critical sections of invokeSendCallback, setFlightACK and finishFlight, called
-- by any number of SENDs. Between the critical sections of one call those of all the others come in.
pub mod Keeping
pub mod Closing
pub mod Joining
use kmtproto.Prelude.{ℕ, ◌<◌, ◌≡◌, ◌⊎◌, Text, List, ◌∷◌, ◌++◌, none, some, if◌then◌else◌}
use kmtproto.Wire.{Envelope}
use kmtproto.Server.Types.{Ending, FlightRef, ServerState}
use kmtproto.Server.Callbacks.{
  Acquired, leads, follows, acquire_flight, finish_flight, begin_send_callback, end_send_callback,
  set_flight_ack,
}
use kmtproto.Server.Flights.{In, number_at, without, Distinct}

-- The processor, and the calls of handleSend that lead a flight or wait for the `done` of one.
pub record Contest (W : Type 0) : Type 0 where
  pub server : ServerState W
  pub leaders : List FlightRef
  pub waiting : List FlightRef

module _ {W : Type 0} where
  -- A SEND that finds the leader inside a callback is answered at once; the others wait.
  abbrev pub joined : Text → Ending Acquired → Contest W → Contest W
  joined key (Ending.returns (leads own)) c = record c { leaders = own ∷ c.leaders }
  joined key (Ending.returns (follows flight)) c =
      if flight.callback_active
      then c
      else record c { waiting = record { key = key; number = flight.number } ∷ c.waiting }
  joined key _ c = c

  abbrev pub acquires : Text → Text → Contest W → Contest W
  acquires key fingerprint c = record (joined key (acquire_flight key fingerprint c.server).1 c) {
    server = (acquire_flight key fingerprint c.server).0;
  }

  abbrev pub ended : FlightRef → Contest W → Contest W
  ended own c = record c {
    server = finish_flight own c.server;
    leaders = without own.number c.leaders;
  }

  -- One critical section of some call, or what a collaborator does between two of them.
  pub data Event : Contest W → Contest W → Type 0 where
    joins : (key fingerprint : Text) (c : Contest W) → Event c (acquires key fingerprint c)
    begins :
        (own : FlightRef) (c : Contest W)
        → In own c.leaders
        → Event c (record c { server = (begin_send_callback own c.server).0 })
    runs :
        (world : W) (c : Contest W)
        → Event c (record c { server = record c.server { world = world } })
    returns_from :
        (own : FlightRef) (c : Contest W)
        → In own c.leaders
        → Event c (record c { server = end_send_callback own c.server })
    stores :
        (own : FlightRef) (ack : Envelope) (c : Contest W)
        → In own c.leaders
        → Event c (record c { server = (set_flight_ack own ack c.server).0 })
    ends : (own : FlightRef) (c : Contest W) → In own c.leaders → Event c (ended own c)
    -- A call stops waiting: the flight is done, or its own context is.
    leaves :
        (before after : List FlightRef) (own : FlightRef) (c : Contest W)
        → c.waiting ≡ before ++ own ∷ after
        → Event c (record c { waiting = before ++ after })

  pub data Events (c : Contest W) : Contest W → Type 0 where
    still : Events c c
    more : {d e : Contest W} → Events c d → Event d e → Events c e

  -- The flights in the table are those that are led, each by one call; a call waits for a flight that is led or
  -- done; and none is done while it is led.
  pub record IsLed (c : Contest W) : Type 0 where
    pub held : (r : FlightRef) → In r c.leaders → number_at r.key c.server.flights ≡ some r.number
    pub led :
        (key : Text) (n : ℕ)
        → number_at key c.server.flights ≡ some n
        → In (record { key = key; number = n }) c.leaders
    pub alone : Distinct c.leaders
    pub awaited : (r : FlightRef) → In r c.waiting → In r c.leaders ⊎ In r.number c.server.done
    pub unfinished : (r : FlightRef) → In r c.leaders → ¬ In r.number c.server.done
    pub numbered : (r : FlightRef) → In r c.leaders → r.number < c.server.next_flight
    pub numbered_done : (n : ℕ) → In n c.server.done → n < c.server.next_flight
