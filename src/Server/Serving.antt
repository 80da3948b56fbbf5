-- ===== src/Server/Serving.antt =====
-- server.go, outbound.go: the queue of one connection while frames are processed, events and states are
-- published, and the writer takes frames out.
use mathlib.Core.List.{append-nil}
use kmtproto.Prelude.{◌≡◌, sym, subst, arith, Text, List, [], ◌∷◌, All, All-append}
use kmtproto.Wire.{Envelope, StateObject, EventPayload, Json}
use kmtproto.Outbound.{OutboundQueue, taken, next, next_of, close}
use kmtproto.Server.Types.{Services, ServerConfig, ServerState}
use kmtproto.Server.Queries.{publish_state_update}
use kmtproto.Server.Publishing.{publish_event}
use kmtproto.Server.Processing.{invoke_server_process}
use kmtproto.Server.Growth.{IsValid, Grown}
use kmtproto.Server.Growth.Processing.{invoke_server_process-IsSound}
use kmtproto.Server.Growth.Queries.{publish_event-IsSound, publish_state_update-IsSound}

module _ {W : Type 0} (json : Json) (config : ServerConfig) (services : Services W) where
  -- What happens to a connection's queue. The rest of the state is shared with other connections, whose
  -- calls come in between.
  pub data Move : ServerState W → ServerState W → Type 0 where
    processes :
        (frame : Envelope) (s : ServerState W)
        → Move s (invoke_server_process json config services frame s).0
    publishes :
        (session_id event_id : Text) (payload : EventPayload) (s : ServerState W)
        → Move s (publish_event json config services session_id event_id payload s).0
    updates :
        (session_id update_id : Text) (object : StateObject) (s : ServerState W)
        → Move s (publish_state_update json config services session_id update_id object s).0
    writes : (s : ServerState W) → Move s (record s { outbound = (next s.outbound).0 })
    closes : (s : ServerState W) → Move s (record s { outbound = close s.outbound })
    elsewhere : (s t : ServerState W) → Move s (record t { outbound = s.outbound })

  pub data Reach (s : ServerState W) : ServerState W → Type 0 where
    here : Reach s s
    onward : {t u : ServerState W} → Reach s t → Move t u → Reach s u

  abbrev Fine : List Envelope → Type 0
  Fine frames = All (IsValid json config) frames

  Grown-Fine : (old frames : List Envelope) → Fine old → Grown json config old frames → Fine frames
  Grown-Fine old frames fine h =
      subst Fine (sym h.sent) (All-append (IsValid json config) old h.new fine h.valid)

  next_of-Fine :
      (frames : List Envelope) (q : OutboundQueue)
      → Fine frames
      → Fine q.frames
      → Fine (next_of frames q).0.frames
  next_of-Fine [] q ahead fine = ground arith
  next_of-Fine (frame ∷ rest) q ahead fine = ahead.1

  next_of-IsValid :
      (frames : List Envelope) (q : OutboundQueue) (frame : Envelope)
      → Fine frames
      → (next_of frames q).1 ≡ taken frame
      → IsValid json config frame
  next_of-IsValid [] q frame fine e = ground arith
  next_of-IsValid (first ∷ rest) q frame fine e = ground arith

  idle-Grown : (old : List Envelope) → Grown json config old old
  idle-Grown old = record { new = []; sent = sym (append-nil old); valid = tt }

  -- However a call for a frame of the client ends, the queue holds what it held before, in the same order,
  -- and behind it only frames that pass the validation of outbound frames.
  pub invoke_server_process-grows :
      (frame : Envelope) (s : ServerState W)
      → Grown json config s.outbound.frames
          (invoke_server_process json config services frame s).0.outbound.frames
  invoke_server_process-grows frame s =
      (invoke_server_process-IsSound json config services s.outbound.frames frame).at s
        (idle-Grown s.outbound.frames)

  Move-Fine : {s t : ServerState W} → Move s t → Fine s.outbound.frames → Fine t.outbound.frames
  unfolding close next
  Move-Fine (processes frame s) fine = Grown-Fine _ _ fine (invoke_server_process-grows frame s)
  Move-Fine (publishes session_id event_id payload s) fine = Grown-Fine _ _ fine (
      (publish_event-IsSound json config services s.outbound.frames session_id event_id payload).at
        s (idle-Grown s.outbound.frames))
  Move-Fine (updates session_id update_id object s) fine = Grown-Fine _ _ fine (
      (publish_state_update-IsSound json config services s.outbound.frames session_id update_id
          object).at
        s (idle-Grown s.outbound.frames))
  Move-Fine (writes s) fine = next_of-Fine s.outbound.frames s.outbound fine fine
  Move-Fine (closes s) fine = fine
  Move-Fine (elsewhere s t) fine = fine

  Reach-Fine : {s t : ServerState W} → Fine s.outbound.frames → Reach s t → Fine t.outbound.frames
  Reach-Fine fine here = fine
  Reach-Fine fine (onward before move) = Move-Fine move (Reach-Fine fine before)

  -- On a connection whose queue starts empty, after any sequence of processed frames, published events and
  -- states, closing, taking of frames and calls of other connections, every frame that the writer takes
  -- next passes the validation of outbound frames.
  pub Reach-next-IsValid :
      {s t : ServerState W} (frame : Envelope)
      → s.outbound.frames ≡ []
      → Reach s t
      → (next t.outbound).1 ≡ taken frame
      → IsValid json config frame
  unfolding next
  Reach-next-IsValid {s} {t} frame empty reached e =
      next_of-IsValid t.outbound.frames t.outbound frame
        (Reach-Fine (subst Fine (sym empty) tt) reached) e
