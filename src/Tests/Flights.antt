-- ===== src/Tests/Flights.antt =====
-- Three SENDs of one message: the second one waits, the third one joins while the leader is inside a callback, and
-- the end of the flight closes what the second one waits for.
use kmtproto.Prelude.{ℕ, [], lookup, inl, refl, text_eq}
use kmtproto.Server.{FlightRef, acquire_flight, begin_send_callback, end_send_callback}
use kmtproto.Server.Contests.{
  Contest, Events, still, more, joins, begins, runs, returns_from, ends, acquires, ended, IsLed,
}
use kmtproto.Server.Leading.{Events-IsLed}
use kmtproto.Tests.Toy.{one_text, session_text}
use kmtproto.Tests.Servers.{idle_server}

abbrev alone : Contest ℕ
alone = record { server = idle_server; leaders = []; waiting = [] }

abbrev leader : FlightRef
leader = record { key = session_text; number = 0 }

abbrev followed : Contest ℕ
followed = acquires session_text one_text (acquires session_text one_text alone)

abbrev calling : Contest ℕ
calling = record followed { server = (begin_send_callback leader followed.server).0 }

abbrev answered : Contest ℕ
answered = acquires session_text one_text calling

abbrev ran : Contest ℕ
ran = record answered { server = record answered.server { world = 1 } }

abbrev back : Contest ℕ
back = record ran { server = end_send_callback leader ran.server }

abbrev over : Contest ℕ
over = ended leader back

over-Events : Events alone over
unfolding acquire_flight begin_send_callback lookup text_eq
over-Events =
    more
      (more
        (more
          (more
            (more
              (more (more still (joins session_text one_text alone))
                (joins session_text one_text (acquires session_text one_text alone)))
              (begins leader followed (inl refl)))
            (joins session_text one_text calling))
          (runs 1 answered))
        (returns_from leader ran (inl refl)))
      (ends leader back (inl refl))

Events-IsLed_example : IsLed over
Events-IsLed_example = Events-IsLed {c = alone} refl refl refl refl over-Events
