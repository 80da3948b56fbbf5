-- ===== src/Tests/Stores.antt =====
-- The reference stores with one message and with two events.
use kmtproto.Prelude.{
  text_instance, ◌-ℤ◌, ◌+◌, ◌≡◌, refl, pos, ◌+ℤ◌, ltb_ℤ, if◌then◌else◌, [], ◌∷◌, length, none, some,
  lookup, inr, arith, text_eq,
}
use kmtproto.Wire.{processing, completed, ok}
use kmtproto.Store.{
  MemoryDedupStore, MemoryDedupEntry, claimed_entry, claim, complete, claimed, existing, dedup_key,
  MemoryReplayStore, ReplayLimits, replay, append, events_of, floor_of, current_seq,
}
use kmtproto.Store.Claims.{claims, dedup_run, claim-exclusive, complete-retained}
use kmtproto.Store.{prune_before}
use kmtproto.Store.Pruning.{prune_before-IsLog}
use kmtproto.Store.Replays.{IsLog, in_range, replay-exact, append-IsLog}
use kmtproto.Client.Ordering.{Contiguous}
use kmtproto.Tests.Toy.{toy, event_frame, one_text, session_text}

abbrev empty_store : MemoryDedupStore
empty_store = record { ttl = pos 60; records = [] }

wins : (claim empty_store 0 session_text one_text one_text).1 ≡ claimed
unfolding claim
wins = refl

claim-exclusive_example :
    let s =
      dedup_run
        (claim empty_store 0 session_text one_text one_text).0
        (claims 5 session_text one_text one_text ∷ []) in
    claim s 90 session_text one_text session_text
    ≡ (s, existing (record { state = processing; fingerprint = one_text; ack = none }))
claim-exclusive_example =
    claim-exclusive empty_store 0 90 session_text one_text one_text session_text
      (claims 5 session_text one_text one_text ∷ []) wins tt

abbrev open_entry : MemoryDedupEntry
open_entry = claimed_entry empty_store 0 one_text

abbrev open_store : MemoryDedupStore
open_store = record { ttl = pos 60; records = (dedup_key session_text one_text, open_entry) ∷ [] }

is_open : lookup (dedup_key session_text one_text) open_store.records ≡ some open_entry
unfolding lookup dedup_key text_eq
is_open = refl

complete-retained_example :
    (claim
      (complete open_store 10 session_text one_text (some (event_frame 1 one_text))).0
      20
      session_text
      one_text
      one_text).1
    ≡ (if ltb_ℤ (pos 20) (pos 10 +ℤ pos 60)
        then existing (record {
          state = completed;
          fingerprint = one_text;
          ack = some (event_frame 1 one_text);
        })
        else claimed)
complete-retained_example =
    complete-retained open_store 10 20 session_text one_text one_text open_entry
      (event_frame 1 one_text) is_open refl

abbrev two_events_log : MemoryReplayStore
two_events_log = record {
  events = (session_text, event_frame 1 one_text ∷ event_frame 2 session_text ∷ []) ∷ [];
  floors = [];
  currents = (session_text, 2) ∷ [];
  ids = (session_text, one_text ∷ session_text ∷ []) ∷ [];
}

two_events_log-IsLog : IsLog two_events_log session_text
unfolding events_of floor_of current_seq lookup text_eq
two_events_log-IsLog = record {
  counted = 0;
  consecutive = (refl, (refl, tt));
  ends = refl;
  begins = inr (refl, refl);
  fits = omega arith;
}

abbrev roomy : ReplayLimits
roomy = record { max_events = 10; max_bytes = pos 100 }

replays : replay toy two_events_log session_text 1 2 roomy ≡ ok (event_frame 2 session_text ∷ [])
unfolding replay lookup text_eq ◌-ℤ◌
replays = refl

replay-exact_example :
    (event_frame 2 session_text ∷ [] ≡ in_range 1 2 (events_of two_events_log session_text))
    × Contiguous 1 (event_frame 2 session_text ∷ [])
    × (1 + length (event_frame 2 session_text ∷ []) ≡ 2)
replay-exact_example =
    replay-exact toy two_events_log session_text 1 2 roomy (event_frame 2 session_text ∷ [])
      two_events_log-IsLog replays

append-IsLog_example :
    IsLog
      (append toy two_events_log session_text (0x32 ∷ []) one_text one_text (pos 0)).0
      session_text
append-IsLog_example =
    append-IsLog toy two_events_log session_text (0x32 ∷ []) one_text one_text (pos 0)
      two_events_log-IsLog

prune_before-IsLog_example : IsLog (prune_before two_events_log session_text 2) session_text
prune_before-IsLog_example =
    prune_before-IsLog two_events_log session_text 2 two_events_log-IsLog (omega arith)
