-- ===== src/Store/Log.antt =====
-- store.go: MemoryReplayStore. In `append`, json.Marshal gets a content that json.Valid accepted, which is
-- all that could make it fail.
use kmtproto.Prelude.{
  ℕ, ℤ, pos, ◌+◌, ◌-◌, ◌^◌, ◌-ℤ◌, ◌+ℤ◌, ltb_ℤ, leb_ℤ, ltb, leb, nat_beq, not, ◌&&◌, ◌||◌, Text,
  List, [], ◌∷◌, ◌++◌, none, some, Map, lookup, insert, text_instance, contains, length, is_empty,
  valid_string, lit, if◌then◌else◌,
}
use kmtproto.Wire.{
  Envelope, event, wire_version_v2, Json, fails, gives, Result, ok, err, plain, wrapped, store,
  replay_unavailable, replay_limit_exceeded, sequence_exhausted,
}

pub record ReplayLimits : Type 0 where
  pub max_events : ℕ
  pub max_bytes : ℤ

pub record MemoryReplayStore : Type 0 where
  pub events : Map Text (List Envelope)
  pub floors : Map Text ℕ
  pub currents : Map Text ℕ
  pub ids : Map Text (List Text)

-- A missing entry of a Go map reads as the zero value.
unfoldable pub events_of : MemoryReplayStore → Text → List Envelope
events_of s session_id = elim (lookup session_id s.events) [ none ↦ [] | some es ↦ es ]

unfoldable pub floor_of : MemoryReplayStore → Text → ℕ
floor_of s session_id = elim (lookup session_id s.floors) [ none ↦ 0 | some n ↦ n ]

unfoldable pub current_seq : MemoryReplayStore → Text → ℕ
current_seq s session_id = elim (lookup session_id s.currents) [ none ↦ 0 | some n ↦ n ]

unfoldable pub ids_of : MemoryReplayStore → Text → List Text
ids_of s session_id = elim (lookup session_id s.ids) [ none ↦ [] | some xs ↦ xs ]

abbrev max_uint64 : ℕ
max_uint64 = 2 ^ 64 - 1

module _ (json : Json) where
  -- The loop of Replay over the retained events; the last argument is `totalBytes`.
  unfoldable pub collect : ReplayLimits → ℕ → ℕ → List Envelope → ℤ → Result (List Envelope)
  collect limits after_seq through_seq [] total = ok []
  collect limits after_seq through_seq (e ∷ rest) total =
      if ltb after_seq e.seq && leb e.seq through_seq
      then elim (json.encode_envelope e) [
        | fails message ↦ err (wrapped (lit "kmtproto: encode replay event: ") (plain message))
        | gives encoded ↦
            if ltb_ℤ (limits.max_bytes -ℤ total) (pos (length encoded))
            then err (store replay_limit_exceeded)
            else elim (collect limits after_seq through_seq rest (total +ℤ pos (length encoded))) [
              | err x ↦ err x
              | ok out ↦ ok (e ∷ out)
            ]
      ]
      else collect limits after_seq through_seq rest total

  unfoldable pub replay : MemoryReplayStore → Text → ℕ → ℕ → ReplayLimits → Result (List Envelope)
  unfolding collect floor_of events_of
  replay s session_id after_seq through_seq limits =
      let floor = floor_of s session_id in
      if nat_beq limits.max_events 0 || leb_ℤ limits.max_bytes (pos 0) || ltb through_seq after_seq
      then err (store replay_limit_exceeded)
      else if ltb limits.max_events (through_seq - after_seq)
      then err (store replay_limit_exceeded)
      else if ltb 0 floor && ltb after_seq (floor - 1)
      then err (store replay_unavailable)
      else elim (collect limits after_seq through_seq (events_of s session_id) (pos 0)) [
        | err x ↦ err x
        | ok out ↦
            if ltb after_seq through_seq && not (nat_beq (length out) (through_seq - after_seq))
            then err (store replay_unavailable)
            else ok out
      ]

  abbrev pub appended_event : ℕ → Text → Text → Text → Text → ℤ → Envelope
  appended_event seq session_id event_id event_type content timestamp = record {
    v = wire_version_v2;
    type = event;
    id = event_id;
    session_id = session_id;
    seq = seq;
    timestamp = timestamp;
    payload = json.encode_event (record { event_type = event_type; content = content });
  }

  unfoldable pub append :
      MemoryReplayStore → Text → Text → Text → Text → ℤ → MemoryReplayStore × Result Envelope
  unfolding current_seq events_of ids_of insert
  append s session_id event_id event_type content timestamp =
      let seq = current_seq s session_id + 1 in
      let e = appended_event seq session_id event_id event_type content timestamp in
      if is_empty session_id
        || is_empty event_id
        || not (valid_string session_id)
        || not (valid_string event_id)
        || not (valid_string event_type)
        || not (json.valid content)
      then (s, err (plain (lit "kmtproto: invalid event append")))
      else if contains event_id (ids_of s session_id)
      then (s, err (plain (lit "kmtproto: duplicate event id")))
      else if nat_beq (current_seq s session_id) max_uint64
      then (s, err (store sequence_exhausted))
      else (
        record s {
          events = insert session_id (events_of s session_id ++ e ∷ []) s.events;
          currents = insert session_id seq s.currents;
          ids = insert session_id (event_id ∷ ids_of s session_id) s.ids;
        },
        ok e,
      )

unfoldable pub drop_before : ℕ → List Envelope → List Envelope
drop_before first [] = []
drop_before first (e ∷ es) =
    let rest = drop_before first es in if ltb e.seq first then rest else e ∷ es

unfoldable pub prune_before : MemoryReplayStore → Text → ℕ → MemoryReplayStore
unfolding current_seq events_of floor_of drop_before insert
prune_before s session_id first_available =
    let current = current_seq s session_id in
    let first =
      if not (nat_beq current max_uint64) && ltb (current + 1) first_available
      then current + 1
      else first_available in
    record s {
      events = insert session_id (drop_before first (events_of s session_id)) s.events;
      floors =
          if ltb (floor_of s session_id) first then insert session_id first s.floors else s.floors;
    }
