-- ===== src/Outbound.antt =====
-- outbound.go: the queue of frames to send, and its writer. The mutex makes each method one step; the
-- wake-up channel only ends a wait earlier or later, so `Next` on an empty open queue is `waits`.
pub mod Fifo
use kmtproto.Prelude.{Bool, true, false, List, [], ◌∷◌, ◌++◌, Text, if◌then◌else◌}
use kmtproto.Wire.{Envelope, Result, ok, err, store, outbound_closed}

pub record OutboundQueue : Type 0 where
  pub frames : List Envelope
  pub closed : Bool

abbrev pub new_outbound_queue : OutboundQueue
new_outbound_queue = record { frames = []; closed = false }

unfoldable pub enqueue_batch : OutboundQueue → List Envelope → OutboundQueue × Result (Unit {0})
enqueue_batch q batch =
    if q.closed
    then (q, err (store outbound_closed))
    else (record q { frames = q.frames ++ batch }, ok tt)

unfoldable pub enqueue : OutboundQueue → Envelope → OutboundQueue × Result (Unit {0})
unfolding enqueue_batch
enqueue q frame = enqueue_batch q (frame ∷ [])

unfoldable pub close : OutboundQueue → OutboundQueue
close q = record q { closed = true }

-- What one round of the loop of `Next` comes to.
pub data Taken : Type 0 where
  taken : Envelope → Taken
  ended waits : Taken

abbrev pub next_of : List Envelope → OutboundQueue → OutboundQueue × Taken
next_of [] q = if q.closed then (q, ended) else (q, waits)
next_of (frame ∷ rest) q = (record q { frames = rest }, taken frame)

unfoldable pub next : OutboundQueue → OutboundQueue × Taken
next q = next_of q.frames q

-- SingleWriter.Run, on what the queue holds when it is closed: the bytes are handed to the sender one
-- frame after the other, until the queue ends or a step fails.
module _ {W : Type 0} (encode : Envelope → Result Text)
    (send : W → Text → W × Result (Unit {0})) where
  unfoldable pub write_all : W → List Envelope → W × Result (Unit {0})
  write_all w [] = (w, err (store outbound_closed))
  write_all w (frame ∷ rest) = elim (encode frame) [
    | err e ↦ (w, err e)
    | ok bytes ↦
        let (w', sent) = send w bytes in
        elim sent [ err e ↦ (w', err e) | ok u ↦ write_all w' rest ]
  ]
