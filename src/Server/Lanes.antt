-- ===== src/Server/Lanes.antt =====
-- server.go: streamLane with its queue. The critical sections of `run` and `invokeCallback`, and callers of one
-- lane that interleave them.
pub mod Turns
pub mod Draining
use kmtproto.Prelude.{
  ℕ, zero, suc, Bool, true, false, List, [], ◌∷◌, ◌++◌, Option, none, some, if◌then◌else◌,
}

-- streamRequest: who waits for the answer, and how often the operation is going to call a collaborator.
pub record StreamRequest : Type 0 where
  pub caller : ℕ
  pub calls : ℕ

pub record LaneQueue : Type 0 where
  pub running : Bool
  pub callback_active : Bool
  pub queue : List StreamRequest

-- `run` up to its loop: an error, the wait for `done`, or the loop.
pub data Submission : Type 0 where
  refused waits loops : Submission

unfoldable pub submit : StreamRequest → LaneQueue → LaneQueue × Submission
submit request l =
    let queued = record l { queue = l.queue ++ (request ∷ []) } in
    if l.callback_active
    then (l, refused)
    else if l.running
    then (queued, waits)
    else (record queued { running = true }, loops)

-- The head of the loop.
unfoldable pub fetch : LaneQueue → LaneQueue × Option StreamRequest
fetch l = elim l.queue [
  | [] ↦ (record l { running = false }, none)
  | request ∷ rest ↦ (record l { queue = rest }, some request)
]

-- Both ends of `invokeCallback`; whether the call may go on.
unfoldable pub begin_callback : LaneQueue → LaneQueue × Bool
begin_callback l =
    if l.callback_active then (l, false) else (record l { callback_active = true }, true)

unfoldable pub end_callback : LaneQueue → LaneQueue
end_callback l = record l { callback_active = false }

-- Where a caller stands that is in the loop: at its head, in an operation that has so many calls before it,
-- or in one of these calls.
pub data Runner : Type 0 where
  at_head : Runner
  executing calling : ℕ → ℕ → Runner

abbrev pub after_fetch : Option StreamRequest → List Runner
after_fetch none = []
after_fetch (some request) = executing request.caller request.calls ∷ []

-- The next section of a runner: the lane, where the runner then stands, if it stays in the loop, and whom it
-- answers. A call that may not go on is an error inside the operation.
unfoldable pub advance : Runner → LaneQueue → LaneQueue × List Runner × List ℕ
unfolding fetch begin_callback end_callback
advance at_head l = ((fetch l).0, after_fetch (fetch l).1, [])
advance (executing caller zero) l = (l, at_head ∷ [], caller ∷ [])
advance (executing caller (suc n)) l =
    let (l', on) = begin_callback l in
    (l', (if on then calling caller n else executing caller n) ∷ [], [])
advance (calling caller n) l = (end_callback l, executing caller n ∷ [], [])

-- A lane, all callers in its loop, and who was taken into the queue and who was answered.
pub record Stream : Type 0 where
  pub lane : LaneQueue
  pub runners : List Runner
  pub accepted : List ℕ
  pub answered : List ℕ

abbrev pub new_stream : Stream
new_stream = record {
  lane = record { running = false; callback_active = false; queue = [] };
  runners = [];
  accepted = [];
  answered = [];
}

abbrev pub after_submission : Submission → StreamRequest → Stream → Stream
after_submission refused request s = s
after_submission waits request s = record s { accepted = s.accepted ++ (request.caller ∷ []) }
after_submission loops request s = record s {
  runners = s.runners ++ (at_head ∷ []);
  accepted = s.accepted ++ (request.caller ∷ []);
}

unfoldable pub submitted : StreamRequest → Stream → Stream
unfolding submit
submitted request s = record (after_submission (submit request s.lane).1 request s) {
  lane = (submit request s.lane).0;
}

-- A runner with others before and behind it.
unfoldable pub advanced : List Runner → Runner → List Runner → Stream → Stream
unfolding advance
advanced before r behind s =
    let (l, stays, answers) = advance r s.lane in
    record s { lane = l; runners = before ++ (stays ++ behind); answered = s.answered ++ answers }

-- The first runner goes on alone for so many sections.
unfoldable pub run_on : ℕ → Stream → Stream
unfolding advanced
run_on zero s = s
run_on (suc n) s = elim s.runners [ [] ↦ s | r ∷ behind ↦ run_on n (advanced [] r behind s) ]
