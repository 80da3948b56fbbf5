-- ===== src/Client/CacheBounds.antt =====
-- The cache of State objects: its accounting in bytes and its two limits.
use kmtproto.Prelude.{
  ℕ, ◌+◌, ◌≡◌, ◌≤ℤ◌, ℤ, pos, ◌+ℤ◌, ◌-ℤ◌, List, [], ◌∷◌, length, Map, lookup, insert, length-insert,
  has_key-lookup, Option, none, some, inl, inr, subst, arith,
}
use kmtproto.Wire.{StateObject, StateIdentity, identity_instance, Json, Result, ok, err}
use kmtproto.State.{ApplyOutcome, identity, apply_state_object}
use kmtproto.Client.{
  Client, ClientConfig, Staged, bytes_after, stage_committed, stage_one, stage_all,
  apply_state_objects, state_object_bytes,
}
use kmtproto.Client.Cases.{Result-cases}

-- The bytes of all the objects in the cache.
unfoldable pub total_bytes : Map StateIdentity StateObject → ℕ
total_bytes [] = 0
total_bytes ((key, object) ∷ rest) = state_object_bytes object + total_bytes rest

-- `bytes` is what the objects occupy, and both limits hold.
abbrev pub IsWithin : ClientConfig → Map StateIdentity StateObject → ℤ → Type 0
IsWithin config objects bytes =
    (bytes ≡ pos (total_bytes objects))
    × (pos (length objects) ≤ℤ config.max_state_objects)
    × (bytes ≤ℤ config.max_state_bytes)

abbrev old_bytes : Option StateObject → ℕ
old_bytes none = 0
old_bytes (some o) = state_object_bytes o

total_bytes-insert :
    (key : StateIdentity) (o : StateObject) (m : Map StateIdentity StateObject)
    → total_bytes (insert key o m) + old_bytes (lookup key m) ≡ total_bytes m + state_object_bytes o
unfolding total_bytes insert lookup
total_bytes-insert key o [] = omega arith
total_bytes-insert key o ((k, old) ∷ m) = ground (arith, total_bytes-insert key o m)

abbrev IsStaged : ClientConfig → Result Staged → Type 0
IsStaged config (ok staged) = IsWithin config staged.objects staged.bytes
IsStaged config (err e) = Unit

module _ (config : ClientConfig) where
  bytes_after-counts :
      (objects : Map StateIdentity StateObject) (key : StateIdentity) (o : StateObject)
      → bytes_after (pos (total_bytes objects)) (lookup key objects) o
        ≡ pos (total_bytes (insert key o objects))
  unfolding bytes_after ◌+ℤ◌ ◌-ℤ◌
  bytes_after-counts objects key o = ground (arith, total_bytes-insert key o objects)

  stage_committed-IsStaged :
      (staged : Staged) (key : StateIdentity) (o : ApplyOutcome)
      → IsWithin config staged.objects staged.bytes
      → IsStaged config (stage_committed config staged (lookup key staged.objects) key o)
  unfolding stage_committed
  stage_committed-IsStaged staged key o h = ground (
    arith,
    h,
    bytes_after-counts staged.objects key o.committed,
    length-insert key o.committed staged.objects,
    has_key-lookup key staged.objects,
  )

  module _ (json : Json) where
    stage_one-IsStaged :
        (staged : Staged) (incoming : StateObject)
        → IsWithin config staged.objects staged.bytes
        → IsStaged config (stage_one json config staged incoming)
    unfolding stage_one
    stage_one-IsStaged staged incoming h =
        let current = lookup (identity incoming) staged.objects in
        let o = apply_state_object json current incoming config.limits in
        ground (arith, stage_committed-IsStaged staged (identity incoming) o h)

    stage_all-IsStaged :
        (staged : Staged) (objects : List StateObject)
        → IsWithin config staged.objects staged.bytes
        → IsStaged config (stage_all json config staged objects)
    unfolding stage_all
    stage_all-IsStaged staged [] h = h
    stage_all-IsStaged staged (incoming ∷ rest) h =
        elim (Result-cases (stage_one json config staged incoming)) [
          | inl (next, r) ↦
              rw (r, IsStaged, stage_all)
                (stage_all-IsStaged next rest
                  (subst (IsStaged config) r (stage_one-IsStaged staged incoming h)))
          | inr (e, r) ↦ rw (r, IsStaged, stage_all) tt
        ]

-- Storing a batch of State objects keeps the cache within its limits and its byte count exact,
-- whether the batch is accepted or refused.
pub apply_state_objects-IsWithin :
    (json : Json) (c : Client) (objects : List StateObject)
    → IsWithin c.config c.state_objects c.state_bytes
    → let c' = (apply_state_objects json c objects).0 in
      IsWithin c'.config c'.state_objects c'.state_bytes
unfolding apply_state_objects
apply_state_objects-IsWithin json c objects h =
    let start : Staged = record {
      objects = c.state_objects;
      bytes = c.state_bytes;
      actions = [];
    } in
    ground (arith, h, stage_all-IsStaged c.config json start objects h)
