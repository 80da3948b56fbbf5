-- ===== src/Server/Lanes/Draining.antt =====
-- A lane runs empty: the loop ends after a number of sections that is known before, and by then everybody is
-- answered.
use kmtproto.Prelude.{
  ℕ, zero, suc, ◌+◌, ◌*◌, ◌≡◌, refl, sym, Bool, true, false, List, [], ◌∷◌, ◌++◌, arith,
}
use kmtproto.Server.Lanes.{
  StreamRequest, LaneQueue, fetch, begin_callback, end_callback, Runner, at_head, executing,
  calling, advance, Stream, new_stream, advanced, run_on,
}
use kmtproto.Server.Lanes.Turns.{Turns, Fits, in_call, lane_with, advanced-Fits, Turns-IsOrderly}

abbrev own_work : Runner → ℕ
own_work at_head = 1
own_work (executing caller n) = 2 + 2 * n
own_work (calling caller n) = 3 + 2 * n

abbrev queue_work : List StreamRequest → ℕ
queue_work [] = 0
queue_work (request ∷ rest) = 2 + 2 * request.calls + queue_work rest

-- The sections that are left to the first runner, with the requests that wait.
abbrev pub work : List Runner → LaneQueue → ℕ
work [] l = 0
work (r ∷ behind) l = own_work r + queue_work l.queue

advance-work :
    (r : Runner) (running active : Bool) (queue : List StreamRequest)
    → active ≡ in_call r
    → work (r ∷ []) (lane_with running active queue)
      ≡ suc (
          work
            ((advance r (lane_with running active queue)).1 ++ [])
            (advance r (lane_with running active queue)).0)
unfolding advance fetch begin_callback end_callback
advance-work at_head running active [] e = omega arith
advance-work at_head running active (request ∷ rest) e = omega arith
advance-work (executing caller zero) running active queue e = omega arith
advance-work (executing caller (suc n)) running false queue e = omega arith
advance-work (executing caller (suc n)) running true queue e = cc
advance-work (calling caller n) running active queue e = omega arith

-- Nobody is in the loop, nobody waits, and everybody who was taken into the queue is answered.
pub record IsRested (accepted : List ℕ) (s : Stream) : Type 0 where
  pub left : s.runners ≡ []
  pub still : s.lane.running ≡ false
  pub empty : s.lane.queue ≡ []
  pub served : s.answered ≡ accepted

drains :
    (n : ℕ) (runners : List Runner) (l : LaneQueue) (accepted answered : List ℕ)
    → Fits runners l accepted answered
    → work runners l ≡ n
    → IsRested accepted (
        run_on n (record { lane = l; runners = runners; accepted = accepted; answered = answered }))
unfolding run_on advanced
drains zero [] l accepted answered (off, quiet, idle, order) e = record {
  left = refl;
  still = off;
  empty = idle;
  served = sym order;
}
drains zero (at_head ∷ []) l accepted answered fits e = absurd (omega arith)
drains zero (executing caller m ∷ []) l accepted answered fits e = absurd (omega arith)
drains zero (calling caller m ∷ []) l accepted answered fits e = absurd (omega arith)
drains n (r ∷ q ∷ rest) l accepted answered fits e = absurd fits
drains (suc n) [] l accepted answered fits e = absurd (omega arith)
drains (suc n) (r ∷ []) l accepted answered fits e =
    drains n ((advance r l).1 ++ []) (advance r l).0 accepted (answered ++ (advance r l).2)
      (advanced-Fits accepted answered [] r [] l fits)
      (omega (arith, advance-work r l.running l.callback_active l.queue fits.1))

-- After any interleaving of callers, if no further call begins: the loop ends after as many sections
-- as it has work for, with nobody in it and nobody waiting, and everybody who was taken into the queue has got
-- an answer, in the order of the queue.
pub Turns-drain :
    {s : Stream} → Turns new_stream s → IsRested s.accepted (run_on (work s.runners s.lane) s)
Turns-drain {s} turns =
    drains (work s.runners s.lane) s.runners s.lane s.accepted s.answered
      (Turns-IsOrderly turns).fits refl
