-- ===== src/Authz/Tests.antt =====
-- Runs of the authorization policy and the list filter, and an instance of each of their theorems.
use solace_broker_mcp.Common.{
  ◌+◌, ◌≡◌, refl, String, List, [], ◌∷◌, Bool, true, false, Option, none, some, key_eq, length,
  ◌&&◌,
}
use solace_broker_mcp.Common.Assoc.{Assoc, find, put}
use solace_broker_mcp.Authz.{
  same, mem, grantors_of, add_grant, add_tools, add_groups, new_policy, matching, decide, authorize,
  array, text, collect, non_empty, resolve_groups, resolve_groups_value, is_exempt, visible,
  filter_tools, list_filter_outcome, filtered,
}
use solace_broker_mcp.Authz.Grants.{grants_any, allowed-grants_any}
use solace_broker_mcp.Authz.Listing.{listed, hidden, filter_tools-visible}

abbrev config : Assoc (List String)
config = ("ops", "purge" ∷ "list" ∷ "list" ∷ []) ∷ ("dev", "list" ∷ []) ∷ []

abbrev id_sort : List String → List String
id_sort gs = gs

authorize_test :
    (authorize id_sort (new_policy config) ("dev" ∷ "x" ∷ "dev" ∷ []) "list"
      ≡ record { allowed = true; matched_groups = "dev" ∷ [] })
    × ((authorize id_sort (new_policy config) ("dev" ∷ []) "purge").allowed ≡ false)
    × ((new_policy config).tool_count ≡ 2)
unfolding authorize new_policy add_groups add_tools add_grant grantors_of mem same find put matching
    decide key_eq
authorize_test = (refl, refl, refl)

claims_test :
    (resolve_groups (("groups", array (some "a" ∷ none ∷ some "b" ∷ [])) ∷ []) "groups"
      ≡ some ("a" ∷ "b" ∷ []))
    × (resolve_groups (("groups", text "") ∷ []) "groups" ≡ none)
    × (resolve_groups [] "groups" ≡ none)
    × (resolve_groups_value (array (some "a" ∷ none ∷ [])) ≡ some ("a" ∷ []))
unfolding resolve_groups resolve_groups_value find collect non_empty same key_eq
claims_test = (refl, refl, refl, refl)

allowed-grants_any_example :
    (authorize id_sort (new_policy config) ("dev" ∷ []) "list").allowed
    ≡ grants_any config ("dev" ∷ []) "list"
allowed-grants_any_example = allowed-grants_any id_sort config ("dev" ∷ []) "list"

abbrev only_a : List String
only_a = "a" ∷ []

abbrev tools : List (Option String)
tools = some "list-brokers" ∷ some "purge" ∷ none ∷ some "list" ∷ []

abbrev may : String → Bool
may tool = same tool "list"

filter_tools-visible_example :
    (mem "purge" (filter_tools may true tools).kept
      ≡ (listed "purge" tools && visible may true "purge"))
    × (length (filter_tools may true tools).kept
          + hidden may true tools
          + (filter_tools may true tools).nil_tools
        ≡ length tools)
filter_tools-visible_example = filter_tools-visible may true tools "purge"

listing_test :
    ((filter_tools may true tools).kept ≡ "list-brokers" ∷ "list" ∷ [])
    × ((filter_tools may false tools).kept ≡ "list-brokers" ∷ [])
    × (list_filter_outcome true
          (filter_tools may true tools).granted
          (length (filter_tools may true tools).kept)
          (length tools)
        ≡ filtered)
unfolding filter_tools is_exempt same key_eq list_filter_outcome
listing_test = (refl, refl, refl)
