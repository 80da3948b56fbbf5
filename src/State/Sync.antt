-- ===== src/State/Sync.antt =====
-- state.go: the state-sync capability.
use kmtproto.Prelude.{
  ℕ, Bool, false, not, Text, List, [], ◌∷◌, none, some, lookup, nat_beq, lit, text_eq,
  text_instance, ◌&&◌,
}
use kmtproto.Wire.{
  CapabilityOffer, Result, ok, invalid_capability, new_protocol_error, refuse_if, ◌>>◌,
}
use kmtproto.Capability.{SessionCapabilities, capability_version, CapabilityRegistry}

unfoldable pub capability_state_sync : Text
unfolding lit
capability_state_sync = lit "state-sync"

abbrev pub capability_state_sync_version : ℕ
capability_state_sync_version = 1

unfoldable pub state_sync_enabled : SessionCapabilities → Bool
unfolding capability_version capability_state_sync
state_sync_enabled c = elim (capability_version c capability_state_sync) [
  | none ↦ false
  | some version ↦ nat_beq version capability_state_sync_version
]

-- `len(versions) != 1 || versions[0] != CapabilityStateSyncVersion`
abbrev is_implemented : List ℕ → Bool
is_implemented [] = false
is_implemented (v ∷ []) = nat_beq v capability_state_sync_version
is_implemented (v ∷ w ∷ rest) = false

unfoldable pub validate_implemented_offers : List CapabilityOffer → Result (Unit {0})
unfolding capability_state_sync
validate_implemented_offers [] = ok tt
validate_implemented_offers (offer ∷ rest) =
    let more = validate_implemented_offers rest in
    do
      refuse_if (text_eq offer.name capability_state_sync && not (is_implemented offer.versions)) (
          new_protocol_error invalid_capability
            (lit "state-sync must use its implemented numeric version"))
      more

unfoldable pub validate_implemented_registry : CapabilityRegistry → Result (Unit {0})
unfolding capability_state_sync
validate_implemented_registry registry = elim (lookup capability_state_sync registry.versions) [
  | none ↦ ok tt
  | some versions ↦ refuse_if (not (is_implemented versions)) (
      new_protocol_error invalid_capability
        (lit "state-sync must use its implemented numeric version"))
]
