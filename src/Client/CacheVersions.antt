-- ===== src/Client/CacheVersions.antt =====
-- Versions in the cache of State objects only grow.
use kmtproto.Prelude.{
  sym, Bool-cases, Option-cases, ◌≤◌, ◌≡◌, List, [], ◌∷◌, Map, lookup, insert, lookup-insert,
  Option, none, some, subst, inl, inr, arith,
}
use kmtproto.Wire.{
  StateObject, StateIdentity, identity_instance, identity_eq_iff, identity_eq, Json, Result, ok,
  err,
}
use kmtproto.State.{ApplyOutcome, identity, apply_state_object}
use kmtproto.State.Monotone.{apply_state_object-monotone}
use kmtproto.Client.{
  Client, ClientConfig, Staged, stage_committed, stage_one, stage_all, apply_state_objects,
}
use kmtproto.Client.Cases.{Result-cases}

-- The object is still there, with the same version or a later one.
unfoldable pub IsKept : StateIdentity → StateObject → Map StateIdentity StateObject → Type 0
IsKept key old objects =
    (new : StateObject) × (lookup key objects ≡ some new) × (old.version ≤ new.version)

abbrev KeepsAll : StateIdentity → StateObject → Result Staged → Type 0
KeepsAll key old (ok staged) = IsKept key old staged.objects
KeepsAll key old (err e) = Unit

module _ (json : Json) (config : ClientConfig) (key : StateIdentity) (old : StateObject) where
  IsKept-insert :
      (objects : Map StateIdentity StateObject) (incoming : StateIdentity) (committed : StateObject)
      → IsKept key old objects
      → (incoming ≡ key → old.version ≤ committed.version)
      → IsKept key old (insert incoming committed objects)
  unfolding IsKept
  IsKept-insert objects incoming committed (held, found, later) newer =
      elim (Bool-cases (identity_eq incoming key)) [
        | inl same ↦ (
          committed,
          ground (arith, same, lookup-insert incoming key committed objects),
          newer ((identity_eq_iff incoming key).0 same),
        )
        | inr other ↦ (
          held,
          ground (arith, other, found, lookup-insert incoming key committed objects),
          later,
        )
      ]

  stage_committed-KeepsAll :
      (staged : Staged) (current : Option StateObject) (incoming : StateIdentity) (o : ApplyOutcome)
      → IsKept key old staged.objects
      → (incoming ≡ key → old.version ≤ o.committed.version)
      → KeepsAll key old (stage_committed config staged current incoming o)
  unfolding stage_committed
  stage_committed-KeepsAll staged current incoming o h newer =
      ground (arith, h, IsKept-insert staged.objects incoming o.committed h newer)

  committed-newer :
      (objects : Map StateIdentity StateObject) (incoming : StateObject)
      → IsKept key old objects
      → (apply_state_object json (lookup (identity incoming) objects) incoming config.limits).error
        ≡ none
      → identity incoming ≡ key
      → old.version
        ≤ (apply_state_object json
            (lookup (identity incoming) objects)
            incoming
            config.limits).committed.version
  unfolding IsKept
  committed-newer objects incoming (held, found, later) quiet same =
      let at_key : lookup (identity incoming) objects ≡ some held =
        subst (λ k. lookup k objects ≡ some held) (sym same) found in
      let m = apply_state_object-monotone json config.limits held incoming (
        subst (λ x. (apply_state_object json x incoming config.limits).error ≡ none) at_key
          quiet) in
      rw at_key (ground (arith, m, later))

  stage_one-KeepsAll :
      (staged : Staged) (incoming : StateObject)
      → IsKept key old staged.objects
      → KeepsAll key old (stage_one json config staged incoming)
  unfolding stage_one
  stage_one-KeepsAll staged incoming h =
      let current = lookup (identity incoming) staged.objects in
      let o = apply_state_object json current incoming config.limits in
      elim (Option-cases o.error) [
        | inr (e, r) ↦ rw (r, KeepsAll, stage_one) tt
        | inl r ↦
            rw (r, KeepsAll, stage_one)
              (stage_committed-KeepsAll staged current (identity incoming) o h
                (committed-newer staged.objects incoming h r))
      ]

  stage_all-KeepsAll :
      (staged : Staged) (objects : List StateObject)
      → IsKept key old staged.objects
      → KeepsAll key old (stage_all json config staged objects)
  unfolding stage_all
  stage_all-KeepsAll staged [] h = h
  stage_all-KeepsAll staged (incoming ∷ rest) h =
      elim (Result-cases (stage_one json config staged incoming)) [
        | inl (next, r) ↦
            rw (r, KeepsAll, stage_all)
              (stage_all-KeepsAll next rest
                (subst (KeepsAll key old) r (stage_one-KeepsAll staged incoming h)))
        | inr (e, r) ↦ rw (r, KeepsAll, stage_all) tt
      ]

-- An object in the cache stays there when a batch of State objects is stored, and its version never
-- goes down.
pub apply_state_objects-keeps_versions :
    (json : Json) (c : Client) (objects : List StateObject) (key : StateIdentity)
    (old : StateObject)
    → lookup key c.state_objects ≡ some old
    → IsKept key old (apply_state_objects json c objects).0.state_objects
unfolding apply_state_objects IsKept
apply_state_objects-keeps_versions json c objects key old found =
    let start : Staged = record {
      objects = c.state_objects;
      bytes = c.state_bytes;
      actions = [];
    } in
    let kept : IsKept key old c.state_objects = (old, found, omega arith) in
    elim (Result-cases (stage_all json c.config start objects)) [
      | inl (last, r) ↦
          rw (r, apply_state_objects)
            (subst (KeepsAll key old) r
              (stage_all-KeepsAll json c.config key old start objects kept))
      | inr (e, r) ↦ rw (r, apply_state_objects) kept
    ]
