-- ===== src/Outbound/Fifo.antt =====
-- The queue against its specification: a sequence of accepted frames, delivered from the front.
use mathlib.Core.List.{append-nil, append_assoc}
use kmtproto.Prelude.{true, List, [], ◌∷◌, ◌++◌, ◌≡◌, refl, ap, sym, ◌∙◌, arith}
use kmtproto.Wire.{Envelope, Result, ok, err}
use kmtproto.Outbound.{
  OutboundQueue, enqueue_batch, close, next, next_of, Taken, taken, ended, waits,
  new_outbound_queue,
}

-- What the producers and the writer do, in any interleaving.
pub data QueueCall : Type 0 where
  enqueues : List Envelope → QueueCall
  takes closes : QueueCall

-- The frames accepted and the frames handed out in the course of a history.
pub record Traffic : Type 0 where
  pub queue : OutboundQueue
  pub accepted : List Envelope
  pub handed : List Envelope

abbrev accepted_by : Result (Unit {0}) → List Envelope → List Envelope
accepted_by (ok u) batch = batch
accepted_by (err e) batch = []

abbrev handed_by : Taken → List Envelope
handed_by (taken frame) = frame ∷ []
handed_by ended = []
handed_by waits = []

unfoldable pub queue_step : Traffic → QueueCall → Traffic
unfolding enqueue_batch next close
queue_step t (enqueues batch) =
    let (q, r) = enqueue_batch t.queue batch in
    record { queue = q; accepted = t.accepted ++ accepted_by r batch; handed = t.handed }
queue_step t takes =
    let (q, r) = next t.queue in
    record { queue = q; accepted = t.accepted; handed = t.handed ++ handed_by r }
queue_step t closes = record t { queue = close t.queue }

unfoldable pub queue_run : Traffic → List QueueCall → Traffic
unfolding queue_step
queue_run t [] = t
queue_run t (call ∷ calls) = queue_run (queue_step t call) calls

abbrev IsFifo : Traffic → Type 0
IsFifo t = t.accepted ≡ t.handed ++ t.queue.frames

next_of-splits :
    (fs : List Envelope) (q : OutboundQueue)
    → q.frames ≡ fs
    → handed_by (next_of fs q).1 ++ (next_of fs q).0.frames ≡ fs
next_of-splits [] q h = ground (arith, h)
next_of-splits (frame ∷ rest) q h = refl

next-splits : (q : OutboundQueue) → handed_by (next q).1 ++ (next q).0.frames ≡ q.frames
unfolding next
next-splits q = next_of-splits q.frames q refl

queue_step-IsFifo : (t : Traffic) (call : QueueCall) → IsFifo t → IsFifo (queue_step t call)
unfolding queue_step
queue_step-IsFifo t (enqueues batch) h =
    ground (arith, h, append_assoc t.handed t.queue.frames batch, append-nil t.accepted)
queue_step-IsFifo t takes h =
    h
    ∙ (ap (λ fs. t.handed ++ fs) (sym (next-splits t.queue))
        ∙ sym (append_assoc t.handed (handed_by (next t.queue).1) (next t.queue).0.frames))
queue_step-IsFifo t closes h = h

queue_run-IsFifo : (t : Traffic) (calls : List QueueCall) → IsFifo t → IsFifo (queue_run t calls)
unfolding queue_run
queue_run-IsFifo t [] h = h
queue_run-IsFifo t (call ∷ calls) h =
    queue_run-IsFifo (queue_step t call) calls (queue_step-IsFifo t call h)

next_of-closed : (fs : List Envelope) (q : OutboundQueue) → (next_of fs q).0.closed ≡ q.closed
next_of-closed [] q = ground arith
next_of-closed (frame ∷ rest) q = refl

-- A closed queue stays closed and accepts nothing.
queue_run-closed :
    (t : Traffic) (calls : List QueueCall)
    → t.queue.closed ≡ true
    → (queue_run t calls).accepted ≡ t.accepted
unfolding queue_run
queue_run-closed t [] h = refl
queue_run-closed t (enqueues batch ∷ calls) h =
    queue_run-closed (queue_step t (enqueues batch)) calls (ground (arith, h))
    ∙ ground (arith, h, append-nil t.accepted)
queue_run-closed t (takes ∷ calls) h =
    queue_run-closed (queue_step t takes) calls (next_of-closed t.queue.frames t.queue ∙ h)
queue_run-closed t (closes ∷ calls) h = queue_run-closed (queue_step t closes) calls refl

abbrev pub fresh_traffic : Traffic
fresh_traffic = record { queue = new_outbound_queue; accepted = []; handed = [] }

-- Whatever the interleaving of batches, reads and closing, before and after a close: the frames handed to
-- the writer, followed by those still in the queue, are exactly the frames accepted, in the order in
-- which they were accepted, each batch in one piece; and nothing is accepted after the close.
pub queue_run-fifo :
    (before after : List QueueCall)
    → let t = queue_run fresh_traffic before in
      let u = queue_run (queue_step t closes) after in
      (t.accepted ≡ t.handed ++ t.queue.frames)
      × (u.accepted ≡ u.handed ++ u.queue.frames)
      × (u.accepted ≡ t.accepted)
unfolding queue_step
queue_run-fifo before after =
    let t = queue_run fresh_traffic before in
    let h = queue_run-IsFifo fresh_traffic before refl in
    (
      h,
      queue_run-IsFifo (queue_step t closes) after h,
      queue_run-closed (queue_step t closes) after refl,
    )
