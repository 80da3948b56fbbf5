-- ===== src/Server/Lanes/Turns.antt =====
-- However the callers of a lane interleave: one operation at a time, in the order of the queue, and nobody is
-- forgotten.
use mathlib.Core.List.{append_assoc, append-nil, map-append}
use kmtproto.Prelude.{
  ℕ, zero, suc, ◌≡◌, refl, sym, ◌∙◌, subst, Bool, true, false, List, [], ◌∷◌, ◌++◌, map,
}
use kmtproto.Server.Lanes.{
  StreamRequest, LaneQueue, submit, fetch, begin_callback, end_callback, Runner, at_head, executing,
  calling, advance, Stream, new_stream, submitted, advanced,
}

-- A call of `run` begins, or one of those in the loop does its next section.
pub data Turn : Stream → Stream → Type 0 where
  submits : (request : StreamRequest) (s : Stream) → Turn s (submitted request s)
  advances :
      (before behind : List Runner) (r : Runner) (s : Stream)
      → s.runners ≡ before ++ (r ∷ behind)
      → Turn s (advanced before r behind s)

pub data Turns (s : Stream) : Stream → Type 0 where
  unchanged : Turns s s
  after : {t u : Stream} → Turns s t → Turn t u → Turns s u

-- Whose operation a runner is in.
abbrev pub serving : Runner → List ℕ
serving at_head = []
serving (executing caller n) = caller ∷ []
serving (calling caller n) = caller ∷ []

abbrev pub in_call : Runner → Bool
in_call (calling caller n) = true
in_call _ = false

abbrev pub waiting : LaneQueue → List ℕ
waiting l = map (λ (r : StreamRequest). r.caller) l.queue

-- With nobody in the loop the lane is at rest and everybody is answered. Otherwise there is one runner, and
-- those taken into the queue are those answered, the one being served and those waiting, in this order.
abbrev pub Fits : List Runner → LaneQueue → List ℕ → List ℕ → Type 0
Fits [] l accepted answered =
    (l.running ≡ false) × (l.callback_active ≡ false) × (l.queue ≡ []) × (accepted ≡ answered)
Fits (r ∷ []) l accepted answered =
    (l.running ≡ true)
    × (l.callback_active ≡ in_call r)
    × (accepted ≡ answered ++ (serving r ++ waiting l))
Fits (r ∷ q ∷ rest) l accepted answered = ⊥

pub record IsOrderly (s : Stream) : Type 0 where
  pub fits : Fits s.runners s.lane s.accepted s.answered

abbrev pub lane_with : Bool → Bool → List StreamRequest → LaneQueue
lane_with running active queue = record {
  running = running;
  callback_active = active;
  queue = queue;
}

module _ (accepted answered : List ℕ) where
  queued_behind :
      (served : List ℕ) (queue : List StreamRequest) (request : StreamRequest)
      → accepted ≡ answered ++ (served ++ map (λ (q : StreamRequest). q.caller) queue)
      → accepted ++ (request.caller ∷ [])
        ≡ answered ++ (served ++ map (λ (q : StreamRequest). q.caller) (queue ++ (request ∷ [])))
  queued_behind served queue request e = simp (e, map-append, append_assoc) refl

  answered_by :
      (given rest : List ℕ)
      → accepted ≡ answered ++ (given ++ rest)
      → accepted ≡ (answered ++ given) ++ rest
  answered_by given rest e = e ∙ sym (append_assoc answered given rest)

  submit-Fits :
      (runners : List Runner) (running active : Bool) (queue : List StreamRequest)
      (request : StreamRequest)
      → Fits runners (lane_with running active queue) accepted answered
      → IsOrderly (
          submitted request (record {
            lane = lane_with running active queue;
            runners = runners;
            accepted = accepted;
            answered = answered;
          }))
  unfolding submitted submit
  submit-Fits [] false false [] request (on, off, idle, order) = record {
    fits = (refl, refl, queued_behind [] [] request (order ∙ sym (append-nil answered)));
  }
  submit-Fits [] false false (q ∷ queue) request (on, off, idle, order) = cc
  submit-Fits [] true false queue request fits = cc
  submit-Fits [] false true queue request fits = cc
  submit-Fits [] true true queue request fits = cc
  submit-Fits (r ∷ []) false active queue request fits = cc
  submit-Fits (r ∷ []) true true queue request fits = record { fits = fits }
  submit-Fits (r ∷ []) true false queue request (on, off, order) = record {
    fits = (refl, off, queued_behind (serving r) queue request order);
  }
  submit-Fits (r ∷ q ∷ rest) running active queue request fits = absurd fits

  advance-Fits :
      (r : Runner) (running active : Bool) (queue : List StreamRequest)
      → Fits (r ∷ []) (lane_with running active queue) accepted answered
      → Fits
          (advance r (lane_with running active queue)).1
          (advance r (lane_with running active queue)).0
          accepted
          (answered ++ (advance r (lane_with running active queue)).2)
  unfolding advance fetch begin_callback end_callback
  advance-Fits at_head running active [] (on, off, order) =
      (refl, off, refl, answered_by [] [] order ∙ append-nil (answered ++ []))
  advance-Fits at_head running active (request ∷ queue) (on, off, order) =
      (on, off, answered_by [] _ order)
  advance-Fits (executing caller zero) running active queue (on, off, order) =
      (on, off, answered_by (caller ∷ []) _ order)
  advance-Fits (executing caller (suc n)) running false queue (on, off, order) =
      (on, refl, answered_by [] _ order)
  advance-Fits (executing caller (suc n)) running true queue (on, off, order) = cc
  advance-Fits (calling caller n) running active queue (on, off, order) =
      (on, refl, answered_by [] _ order)

  -- A runner is never beside another one.
  pub advanced-Fits :
      (before : List Runner) (r : Runner) (behind : List Runner) (l : LaneQueue)
      → Fits (before ++ (r ∷ behind)) l accepted answered
      → Fits
          (before ++ ((advance r l).1 ++ behind))
          (advance r l).0
          accepted
          (answered ++ (advance r l).2)
  advanced-Fits [] r [] l fits =
      subst (λ rs. Fits rs (advance r l).0 accepted (answered ++ (advance r l).2))
        (sym (append-nil (advance r l).1)) (advance-Fits r l.running l.callback_active l.queue fits)
  advanced-Fits [] r (q ∷ behind) l fits = absurd fits
  advanced-Fits (q ∷ []) r behind l fits = absurd fits
  advanced-Fits (q ∷ p ∷ before) r behind l fits = absurd fits

Turn-IsOrderly : {s t : Stream} → Turn s t → IsOrderly s → IsOrderly t
unfolding advanced
Turn-IsOrderly (submits request s) h =
    submit-Fits s.accepted s.answered s.runners s.lane.running s.lane.callback_active s.lane.queue
      request h.fits
Turn-IsOrderly (advances before behind r s e) h = record {
  fits =
      advanced-Fits s.accepted s.answered before r behind s.lane
        (subst (λ rs. Fits rs s.lane s.accepted s.answered) e h.fits);
}

-- However the callers of a lane interleave: there is at most one of them in the loop, the lane is marked as
-- running exactly while there is one and as in a callback exactly while its operation is in one, and those
-- taken into the queue are those answered, the one being served and those waiting, in the order of the queue;
-- with nobody in the loop nobody waits.
pub Turns-IsOrderly : {s : Stream} → Turns new_stream s → IsOrderly s
Turns-IsOrderly unchanged = record { fits = (refl, refl, refl, refl) }
Turns-IsOrderly (after before turn) = Turn-IsOrderly turn (Turns-IsOrderly before)
