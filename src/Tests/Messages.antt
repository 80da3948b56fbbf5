-- ===== src/Tests/Messages.antt =====
-- A message that is claimed, completed and claimed again, beside another one.
use kmtproto.Prelude.{pos, ◌≡◌, List, [], ◌∷◌, some, arith}
use kmtproto.Store.{new_memory_dedup_store, dedup_key, claim}
use kmtproto.Store.Claims.{DedupCall, claims, completes, aborts, dedup_run}
use kmtproto.Store.Messages.{Status, absent, status_of, status_after, claim_answer}
use kmtproto.Store.Refinement.{AreClean, dedup_run-refines}
use kmtproto.Tests.Toy.{event_frame, one_text, session_text}

abbrev history : List DedupCall
history =
    claims 1 session_text one_text one_text
    ∷ claims 2 session_text session_text one_text
    ∷ completes 3 session_text one_text (some (event_frame 1 one_text))
    ∷ aborts session_text session_text
    ∷ []

history-AreClean : AreClean history
history-AreClean = omega arith

abbrev last_status : Status
last_status = status_after (pos 60) session_text one_text history absent

dedup_run-refines_example :
    (status_of
        (dedup_run (new_memory_dedup_store (pos 60)) history)
        (dedup_key session_text one_text)
      ≡ last_status)
    × ((claim
          (dedup_run (new_memory_dedup_store (pos 60)) history)
          9
          session_text
          one_text
          session_text).1
        ≡ claim_answer 9 last_status)
dedup_run-refines_example =
    dedup_run-refines (pos 60) history 9 session_text one_text session_text history-AreClean
      (omega arith)
