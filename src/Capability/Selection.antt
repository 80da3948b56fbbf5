-- ===== src/Capability/Selection.antt =====
-- From two raw version lists to the selected version.
use kmtproto.Prelude.{ℕ, ◌≡◌, List, sym, ◌∙◌, nat_eq}
use kmtproto.Wire.{Limits, ok}
use kmtproto.Capability.{validate_and_sort_versions, highest_common_version}
use kmtproto.Capability.Highest.{
  IsHighestCommon, IsHighestCommon-widen, highest_common_version-IsHighestCommon,
}
use kmtproto.Capability.Sorting.{validate_and_sort_versions-sorts}

-- When both sides' version lists are accepted, the selection from the sorted lists is the highest
-- version that stands in both lists as they were given, and there is none only if they share none.
pub highest_common_version-of_offers :
    (client server : List ℕ) (limits : Limits) (sorted_client sorted_server : List ℕ)
    → validate_and_sort_versions client limits ≡ ok sorted_client
    → validate_and_sort_versions server limits ≡ ok sorted_server
    → IsHighestCommon client server (highest_common_version sorted_client sorted_server)
highest_common_version-of_offers client server limits cs ss hc hs =
    let c = validate_and_sort_versions-sorts client limits cs hc in
    let s = validate_and_sort_versions-sorts server limits ss hs in
    IsHighestCommon-widen cs ss client server (highest_common_version cs ss)
      (λ w e. sym (c.1 w) ∙ e) (λ w e. sym (s.1 w) ∙ e) (λ w e f. (c.1 w ∙ e, s.1 w ∙ f))
      (highest_common_version-IsHighestCommon cs ss c.0 s.0)
