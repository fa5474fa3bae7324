-- ===== src/Authz.antt =====
-- Which tools a caller may use: internal/authz/authz.go, the groups of a token's claim in
-- internal/auth/claims.go, and the filter of tools/list in internal/tools/listfilter.go. A set of
-- strings is a list of its members.
pub mod Grants
pub mod Claims
pub mod Listing
mod Tests
use solace_broker_mcp.Common.{
  ℕ, zero, suc, ◌+◌, String, List, [], ◌∷◌, ◌++◌, Bool, true, false, Option, none, some, key_eq,
  ite, ltb, ◌==◌, if◌then◌else◌, ◌&&◌, ◌||◌, not, length, take,
}
use solace_broker_mcp.Common.Assoc.{Assoc, find, put}

pub same : String → String → Bool
same a b = ite (key_eq a b) true false

pub mem : String → List String → Bool
mem x [] = false
mem x (y ∷ ys) = same x y || mem x ys

-- The index of the grants, and the two counts that are logged.
pub record Policy : Type 0 where
  pub tool_grantors : Assoc (List String)
  pub tool_count : ℕ
  pub group_count : ℕ

pub record Decision : Type 0 where
  pub allowed : Bool
  pub matched_groups : List String

-- The grantors of a tool: the empty set if it has no entry.
pub grantors_of : String → Assoc (List String) → List String
grantors_of tool m = elim (find tool m) [ none ↦ [] | some gs ↦ gs ]

pub add_grant : String → String → Assoc (List String) → Assoc (List String)
add_grant group tool m =
    let gs = grantors_of tool m in put tool (if mem group gs then gs else group ∷ gs) m

-- The inner loop of `NewPolicy`, with the set `toolSeen`.
pub add_tools : String → List String → List String → Assoc (List String) → Assoc (List String)
add_tools group [] seen m = m
add_tools group (tool ∷ tools) seen m =
    let skipped = add_tools group tools seen m in
    let added = add_tools group tools (tool ∷ seen) (add_grant group tool m) in
    if mem tool seen then skipped else added

pub add_groups : Assoc (List String) → Assoc (List String) → Assoc (List String)
add_groups [] m = m
add_groups ((group, tools) ∷ rest) m = add_groups rest (add_tools group tools [] m)

-- `NewPolicy`, on the groups in the order in which the loop over the map takes them.
pub new_policy : Assoc (List String) → Policy
new_policy groups =
    let m = add_groups groups [] in
    record { tool_grantors = m; tool_count = length m; group_count = length groups }

-- The loop of `Authorize`, with the set `seen`.
pub matching : List String → List String → List String → List String
matching grantors seen [] = []
matching grantors seen (g ∷ groups) =
    let skipped = matching grantors seen groups in
    let rest = matching grantors (g ∷ seen) groups in
    if mem g seen then skipped else if mem g grantors then g ∷ rest else rest

abbrev pub deny : Decision
deny = record { allowed = false; matched_groups = [] }

pub decide : (List String → List String) → List String → Decision
decide sort [] = deny
decide sort (g ∷ gs) = record { allowed = true; matched_groups = sort (g ∷ gs) }

-- `Authorize`. `sort` is `sort.Strings`.
pub authorize : (List String → List String) → Policy → List String → String → Decision
authorize sort p groups tool = elim (find tool p.tool_grantors) [
  | none ↦ deny
  | some grantors ↦ decide sort (matching grantors [] groups)
]

-- A claim's value as `encoding/json` hands it on; `scalar` is any other type,
-- and `none` an element that is not a string.
pub data Value : Type 0 where
  null scalar : Value
  text : String → Value
  array : List (Option String) → Value
  texts : List String → Value

abbrev pub groups_soft_cap : ℕ
groups_soft_cap = 250

-- The loop over an array: what is kept, up to the cap.
pub collect : ℕ → List (Option String) → List String → List String
collect cap [] result = result
collect cap (some s ∷ vs) result =
    collect cap vs (if ltb (length result) cap then result ++ s ∷ [] else result)
collect cap (none ∷ vs) result = collect cap vs result

pub non_empty : List String → Option (List String)
non_empty [] = none
non_empty (g ∷ gs) = some (g ∷ gs)

-- `resolveGroupsValue`: `none` is `(nil, false)`.
pub resolve_groups_value : Value → Option (List String)
resolve_groups_value null = none
resolve_groups_value scalar = none
resolve_groups_value (text s) = if same s "" then none else some (s ∷ [])
resolve_groups_value (array []) = some []
resolve_groups_value (array (v ∷ vs)) = non_empty (collect groups_soft_cap (v ∷ vs) [])
resolve_groups_value (texts gs) =
    some (if ltb groups_soft_cap (length gs) then take groups_soft_cap gs else gs)

-- `ResolveGroups`: a missing key is `(nil, false)` too.
pub resolve_groups : Assoc Value → String → Option (List String)
resolve_groups claims name = elim (find name claims) [
  | none ↦ none
  | some v ↦ resolve_groups_value v
]

-- The two tools that no policy governs.
pub is_exempt : String → Bool
is_exempt tool = same tool "list-brokers" || same tool "describe-semp-schema"

-- The loop of `WithListFiltering` over the tools, `none` being a nil entry.
pub record Listed : Type 0 where
  pub kept : List String
  pub nil_tools : ℕ
  pub granted : ℕ

pub visible : (String → Bool) → Bool → String → Bool
visible allowed present tool = is_exempt tool || (present && allowed tool)

pub filter_tools : (String → Bool) → Bool → List (Option String) → Listed
filter_tools allowed present [] = record { kept = []; nil_tools = 0; granted = 0 }
filter_tools allowed present (none ∷ tools) =
    let rest = filter_tools allowed present tools in record rest { nil_tools = rest.nil_tools + 1 }
filter_tools allowed present (some tool ∷ tools) =
    let rest = filter_tools allowed present tools in
    if is_exempt tool
    then record rest { kept = tool ∷ rest.kept }
    else if not present
    then rest
    else if allowed tool
    then record rest { kept = tool ∷ rest.kept; granted = rest.granted + 1 }
    else rest

pub data Reason : Type 0 where
  missing_claim not_permitted unfiltered filtered : Reason

pub list_filter_outcome : Bool → ℕ → ℕ → ℕ → Reason
list_filter_outcome present granted after before =
    if not present
    then missing_claim
    else if granted == 0
    then not_permitted
    else if after == before
    then unfiltered
    else filtered
