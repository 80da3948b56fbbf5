-- ===== src/Capability/Registry.antt =====
-- capability.go: CapabilityRegistry, built once and then only read.
use kmtproto.Prelude.{
  ℕ, pos, ◌||◌, Text, List, [], ◌∷◌, ◌++◌, none, some, length, is_empty, ltb_ℤ, lit, text_lt,
  text_instance, Map, lookup, insert, has_key, insertion_sort, if◌then◌else◌,
}
use kmtproto.Wire.{
  Limits, normalize_limits, validate_limits, CapabilityOffer, NegotiatedCapability, Result, ok, err,
  wrapped, invalid_capability, unsupported_feature, new_protocol_error, refuse_if, ◌>>=◌, ◌>>◌,
}
use kmtproto.Capability.Names.{validate_capability_name}
use kmtproto.Capability.Versions.{validate_and_sort_versions, highest_common_version}
use kmtproto.Capability.Session.{
  SessionCapabilities, new_session_capabilities, validate_and_copy_offers,
}

pub record CapabilitySpec : Type 0 where
  pub name : Text
  pub versions : List ℕ

pub record CapabilityRegistry : Type 0 where
  pub versions : Map Text (List ℕ)

unfoldable pub register_all :
    List CapabilitySpec → Limits → Map Text (List ℕ) → Result (Map Text (List ℕ))
register_all [] limits known = ok known
register_all (spec ∷ rest) limits known = do
  validate_capability_name spec.name limits
  refuse_if (has_key spec.name known) (
      new_protocol_error invalid_capability
        (lit "duplicate capability specification: " ++ spec.name))
  elim (validate_and_sort_versions spec.versions limits) [
    | ok versions ↦ register_all rest limits (insert spec.name versions known)
    | err e ↦ err (wrapped (lit "kmtproto: capability " ++ (spec.name ++ lit ": ")) e)
  ]

unfoldable pub new_capability_registry : List CapabilitySpec → Limits → Result CapabilityRegistry
unfolding register_all
new_capability_registry specs limits =
    let l = normalize_limits limits in
    do
      validate_limits l
      refuse_if (ltb_ℤ l.max_capabilities (pos (length specs)))
          (new_protocol_error invalid_capability (lit "too many capability specifications"))
      versions ← register_all specs l []
      ok (record { versions = versions })

-- emptyCapabilityRegistry, which also stands for a nil registry in Negotiate
abbrev pub empty_registry : CapabilityRegistry
empty_registry = record { versions = [] }

-- `r.versions[offer.Name]`: nil for a capability that is not registered.
unfoldable pub server_versions : CapabilityRegistry → Text → List ℕ
server_versions r name = elim (lookup name r.versions) [ none ↦ [] | some versions ↦ versions ]

unfoldable pub select_versions :
    CapabilityRegistry → List CapabilityOffer → Result (List NegotiatedCapability)
unfolding server_versions
select_versions r [] = ok []
select_versions r (offer ∷ rest) =
    let more = select_versions r rest in
    elim (highest_common_version offer.versions (server_versions r offer.name)) [
      | none ↦
          if offer.required
          then err (
              new_protocol_error unsupported_feature
                (lit "required capability is unsupported: " ++ offer.name))
          else more
      | some version ↦ (do
        accepted ← more
        ok (record { name = offer.name; version = version } ∷ accepted))
    ]

-- `sort.Slice` by name; the names differ, so any sorting algorithm gives this list.
unfoldable pub by_name : List NegotiatedCapability → List NegotiatedCapability
unfolding insertion_sort
by_name = insertion_sort (λ a b. text_lt a.name b.name)

unfoldable pub negotiate :
    CapabilityRegistry → List CapabilityOffer → Limits → Result SessionCapabilities
unfolding select_versions by_name
negotiate r offers limits =
    let l = normalize_limits limits in
    do
      validated ← validate_and_copy_offers offers l
      accepted ← select_versions r validated
      new_session_capabilities (by_name accepted) l

-- The loop of `validate`, over the entries in any order.
unfoldable pub check_registry : Map Text (List ℕ) → Limits → Result (Unit {0})
check_registry [] limits = ok tt
check_registry ((name, versions) ∷ rest) limits =
    let more = check_registry rest limits in
    do
      validate_capability_name name limits
      refuse_if (is_empty versions || ltb_ℤ limits.max_capability_versions (pos (length versions)))
          (new_protocol_error invalid_capability
            (lit "capability registry version list exceeds configured limits"))
      more

unfoldable pub validate_registry : CapabilityRegistry → Limits → Result (Unit {0})
unfolding check_registry
validate_registry r limits =
    let l = normalize_limits limits in
    do
      refuse_if (ltb_ℤ l.max_capabilities (pos (length r.versions))) (
          new_protocol_error invalid_capability
            (lit "capability registry exceeds configured limits"))
      check_registry r.versions l
