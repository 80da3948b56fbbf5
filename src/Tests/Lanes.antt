-- ===== src/Tests/Lanes.antt =====
-- Two callers of a lane: the second one comes while the first one serves itself, between two callbacks.
use kmtproto.Prelude.{refl, []}
use kmtproto.Server.Lanes.{StreamRequest, Stream, at_head, new_stream, submitted, advanced, submit}
use kmtproto.Server.Lanes.Turns.{
  Turns, unchanged, after, submits, advances, IsOrderly, Turns-IsOrderly,
}
use kmtproto.Server.Lanes.Draining.{IsRested, work, Turns-drain}
use kmtproto.Server.Lanes.{run_on}

abbrev first : StreamRequest
first = record { caller = 1; calls = 2 }

abbrev second : StreamRequest
second = record { caller = 2; calls = 1 }

abbrev begun : Stream
begun = advanced [] at_head [] (submitted first new_stream)

abbrev joined : Stream
joined = submitted second begun

joined-Turns : Turns new_stream joined
unfolding submitted submit
joined-Turns =
    after
      (after (after unchanged (submits first new_stream))
        (advances [] [] at_head (submitted first new_stream) refl))
      (submits second begun)

Turns-IsOrderly_example : IsOrderly joined
Turns-IsOrderly_example = Turns-IsOrderly joined-Turns

Turns-drain_example : IsRested joined.accepted (run_on (work joined.runners joined.lane) joined)
Turns-drain_example = Turns-drain joined-Turns
