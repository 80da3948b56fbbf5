-- ===== src/Capability/Session.antt =====
-- capability.go: SessionCapabilities and the checks on a negotiated list. Copies of a slice are the
-- list itself: nothing in the source writes into a list after it is stored.
use kmtproto.Prelude.{
  ℕ, pos, Bool, false, ◌&&◌, not, Text, List, [], ◌∷◌, ◌++◌, Option, none, some, length, ltb_ℤ,
  nat_beq, lit, text_lt, text_eq, text_instance, Map, lookup, insert, has_key, contains,
  if◌then◌else◌, map,
}
use kmtproto.Wire.{
  Limits, normalize_limits, NegotiatedCapability, CapabilityOffer, Result, ok, err,
  invalid_capability, protocol_violation, wrapped, new_protocol_error, refuse_if, ◌>>=◌, ◌>>◌,
}
use kmtproto.Capability.Names.{validate_capability_name}
use kmtproto.Capability.Versions.{validate_and_sort_versions, contains_version}

pub record SessionCapabilities : Type 0 where
  pub selections : List NegotiatedCapability
  pub versions : Map Text ℕ

-- The zero value.
abbrev pub no_capabilities : SessionCapabilities
no_capabilities = record { selections = []; versions = [] }

-- The loop: `seen`, and the previous name if there is one.
unfoldable pub check_negotiated :
    List NegotiatedCapability → Limits → List Text → Option Text → Result (Unit {0})
check_negotiated [] limits seen previous = ok tt
check_negotiated (capability ∷ rest) limits seen previous =
    let more = check_negotiated rest limits (capability.name ∷ seen) (some capability.name) in
    do
      validate_capability_name capability.name limits
      refuse_if (nat_beq capability.version 0)
          (new_protocol_error invalid_capability (lit "capability version must be positive"))
      refuse_if (contains capability.name seen) (
          new_protocol_error invalid_capability
            (lit "duplicate negotiated capability: " ++ capability.name))
      refuse_if (elim previous [ none ↦ false | some p ↦ not (text_lt p capability.name) ])
          (new_protocol_error invalid_capability
            (lit "negotiated capabilities must use canonical name order"))
      more

unfoldable pub validate_negotiated : List NegotiatedCapability → Limits → Result (Unit {0})
unfolding check_negotiated
validate_negotiated capabilities limits =
    let l = normalize_limits limits in
    do
      refuse_if (ltb_ℤ l.max_capabilities (pos (length capabilities)))
          (new_protocol_error invalid_capability (lit "too many negotiated capabilities"))
      check_negotiated capabilities l [] none

unfoldable pub version_map : List NegotiatedCapability → Map Text ℕ → Map Text ℕ
version_map [] versions = versions
version_map (c ∷ rest) versions = version_map rest (insert c.name c.version versions)

unfoldable pub new_session_capabilities :
    List NegotiatedCapability → Limits → Result SessionCapabilities
unfolding validate_negotiated version_map
new_session_capabilities capabilities limits = do
  validate_negotiated capabilities limits
  ok (record { selections = capabilities; versions = version_map capabilities [] })

-- Enabled and Version
unfoldable pub enabled : SessionCapabilities → Text → Bool
enabled c name = has_key name c.versions

unfoldable pub capability_version : SessionCapabilities → Text → Option ℕ
capability_version c name = lookup name c.versions

unfoldable pub check_offers :
    List CapabilityOffer → Limits → List Text → Result (List CapabilityOffer)
check_offers [] limits seen = ok []
check_offers (offer ∷ rest) limits seen =
    let more = check_offers rest limits (offer.name ∷ seen) in
    do
      validate_capability_name offer.name limits
      refuse_if (contains offer.name seen)
          (new_protocol_error invalid_capability (lit "duplicate capability offer: " ++ offer.name))
      versions ← elim (validate_and_sort_versions offer.versions limits) [
        | ok versions ↦ ok versions
        | err e ↦ err (wrapped (lit "kmtproto: capability " ++ (offer.name ++ lit ": ")) e)
      ]
      checked ← more
      ok (record offer { versions = versions } ∷ checked)

unfoldable pub validate_and_copy_offers :
    List CapabilityOffer → Limits → Result (List CapabilityOffer)
unfolding check_offers
validate_and_copy_offers offers limits =
    let l = normalize_limits limits in
    do
      refuse_if (ltb_ℤ l.max_capabilities (pos (length offers)))
          (new_protocol_error invalid_capability (lit "too many capability offers"))
      check_offers offers l []

-- offerByName[name]; the names of validated offers differ.
unfoldable pub offer_by_name : Text → List CapabilityOffer → Option CapabilityOffer
offer_by_name name [] = none
offer_by_name name (offer ∷ rest) =
    if text_eq offer.name name then some offer else offer_by_name name rest

unfoldable pub was_offered : List CapabilityOffer → NegotiatedCapability → Bool
unfolding offer_by_name
was_offered offers c = elim (offer_by_name c.name offers) [
  | none ↦ false
  | some offer ↦ contains_version offer.versions c.version
]

unfoldable pub check_accepted : List CapabilityOffer → List NegotiatedCapability → Result (Unit {0})
unfolding was_offered
check_accepted offers [] = ok tt
check_accepted offers (c ∷ rest) =
    let more = check_accepted offers rest in
    do
      refuse_if (not (was_offered offers c)) (
          new_protocol_error protocol_violation
            (lit "server accepted an unoffered capability version"))
      more

abbrev pub accepted_names : List NegotiatedCapability → List Text
accepted_names = map (λ c. c.name)

unfoldable pub check_required : List CapabilityOffer → List NegotiatedCapability → Result (Unit {0})
check_required [] accepted = ok tt
check_required (offer ∷ rest) accepted =
    let more = check_required rest accepted in
    do
      refuse_if (offer.required && not (contains offer.name (accepted_names accepted))) (
          new_protocol_error protocol_violation
            (lit "server omitted a required capability: " ++ offer.name))
      more

unfoldable pub validate_negotiated_against_offers :
    List CapabilityOffer → List NegotiatedCapability → Limits → Result (Unit {0})
unfolding check_accepted check_required
validate_negotiated_against_offers offers accepted limits = do
  validated ← validate_and_copy_offers offers limits
  validate_negotiated accepted limits
  check_accepted validated accepted
  check_required validated accepted
