-- ===== src/Authz/Grants.antt =====
-- The index of a policy decides as its configuration says.
use solace_broker_mcp.Common.{
  ◌≡◌, refl, String, List, [], ◌∷◌, Bool, true, false, Option, none, some, if◌then◌else◌, ◌&&◌, ◌⊎◌,
  ◌||◌, not, arith, inl,
}
use solace_broker_mcp.Common.Assoc.{Assoc, find, find-put}
use solace_broker_mcp.Authz.{
  same, mem, Policy, Decision, grantors_of, add_grant, add_tools, add_groups, new_policy, matching,
  decide, authorize, deny,
}

-- What the configuration says: some entry of the group lists the tool.
pub grants : Assoc (List String) → String → String → Bool
grants [] group tool = false
grants ((name, tools) ∷ rest) group tool =
    (same group name && mem tool tools) || grants rest group tool

pub grants_any : Assoc (List String) → List String → String → Bool
grants_any cfg [] tool = false
grants_any cfg (g ∷ gs) tool = grants cfg g tool || grants_any cfg gs tool

pub same_refl : (a : String) → same a a ≡ true
unfolding same
same_refl a = ground arith

pub same-mem : (a b : String) (xs : List String) → same a b ≡ true → mem a xs ≡ mem b xs
unfolding same
same-mem a b xs h = ground arith

mem-add :
    (group g : String) (gs : List String)
    → mem g (if mem group gs then gs else group ∷ gs) ≡ (same g group || mem g gs)
unfolding mem
mem-add group g gs = ground (arith, same-mem g group gs)

unfoldable some_one : List String → Bool
some_one [] = false
some_one (g ∷ gs) = true

-- The same disjunction over the groups that were seen before.
unfoldable seen_any : Assoc (List String) → String → List String → Bool
seen_any cfg tool [] = false
seen_any cfg tool (g ∷ gs) = grants cfg g tool || seen_any cfg tool gs

grants-same :
    (cfg : Assoc (List String)) (tool a b : String)
    → same a b ≡ true
    → grants cfg a tool ≡ grants cfg b tool
unfolding same
grants-same cfg tool a b h = ground arith

seen_any-mem :
    (cfg : Assoc (List String)) (tool g : String) (seen : List String)
    → (mem g seen ≡ false) ⊎ (grants cfg g tool ≡ false) ⊎ (seen_any cfg tool seen ≡ true)
unfolding seen_any mem
seen_any-mem cfg tool g [] = inl refl
seen_any-mem cfg tool g (x ∷ seen) =
    ground (arith, seen_any-mem cfg tool g seen, grants-same cfg tool g x)

mem-add_grant :
    (group tool : String) (m : Assoc (List String)) (g t : String)
    → mem g (grantors_of t (add_grant group tool m))
      ≡ ((same t tool && same g group) || mem g (grantors_of t m))
unfolding add_grant grantors_of same
mem-add_grant group tool m g t = ground (
  arith,
  find-put tool t
      (if mem group (grantors_of tool m) then grantors_of tool m else group ∷ grantors_of tool m) m,
  mem-add group g (grantors_of tool m),
)

mem-add_tools :
    (group : String) (tools seen : List String) (m : Assoc (List String)) (g t : String)
    → mem g (grantors_of t (add_tools group tools seen m))
      ≡ ((same g group && (mem t tools && not (mem t seen))) || mem g (grantors_of t m))
unfolding add_tools mem
mem-add_tools group [] seen m g t = ground arith
mem-add_tools group (tool ∷ tools) seen m g t = ground (
  arith,
  mem-add_tools group tools seen m g t,
  mem-add_tools group tools (tool ∷ seen) (add_grant group tool m) g t,
  mem-add_grant group tool m g t,
  same-mem t tool seen,
)

mem-add_groups :
    (cfg m : Assoc (List String)) (g t : String)
    → mem g (grantors_of t (add_groups cfg m)) ≡ (grants cfg g t || mem g (grantors_of t m))
unfolding add_groups grants mem
mem-add_groups [] m g t = refl
mem-add_groups ((group, tools) ∷ rest) m g t = ground (
  arith,
  mem-add_groups rest (add_tools group tools [] m) g t,
  mem-add_tools group tools [] m g t,
)

mem-matching :
    (grantors seen groups : List String) (g : String)
    → mem g (matching grantors seen groups) ≡ (mem g groups && (not (mem g seen) && mem g grantors))
unfolding matching mem
mem-matching grantors seen [] g = refl
mem-matching grantors seen (x ∷ groups) g = ground (
  arith,
  mem-matching grantors seen groups g,
  mem-matching grantors (x ∷ seen) groups g,
  same-mem g x seen,
  same-mem g x grantors,
)

mem-decide :
    (sort : List String → List String) (gs : List String) (g : String)
    → ((xs : List String) → mem g (sort xs) ≡ mem g xs)
    → mem g (decide sort gs).matched_groups ≡ mem g gs
unfolding decide
mem-decide sort [] g h = refl
mem-decide sort (x ∷ gs) g h = h (x ∷ gs)

grantors-new_policy :
    (cfg : Assoc (List String)) (g t : String)
    → mem g (grantors_of t (new_policy cfg).tool_grantors) ≡ grants cfg g t
unfolding new_policy mem grantors_of find
grantors-new_policy cfg g t = ground (arith, mem-add_groups cfg [] g t)

matching-nobody : (seen groups : List String) → matching [] seen groups ≡ []
unfolding matching mem
matching-nobody seen [] = refl
matching-nobody seen (g ∷ groups) =
    ground (arith, matching-nobody seen groups, matching-nobody (g ∷ seen) groups)

option-matching :
    (sort : List String → List String) (groups : List String) (o : Option (List String))
    → (elim o as (λ _. Decision) [ none ↦ deny | some gs ↦ decide sort (matching gs [] groups) ])
      ≡ decide sort (matching (elim o as (λ _. List String) [ none ↦ [] | some gs ↦ gs ]) [] groups)
unfolding decide
option-matching sort groups none = rw (matching-nobody [] groups) refl
option-matching sort groups (some gs) = refl

authorize-matching :
    (sort : List String → List String) (p : Policy) (groups : List String) (tool : String)
    → authorize sort p groups tool
      ≡ decide sort (matching (grantors_of tool p.tool_grantors) [] groups)
unfolding authorize grantors_of
authorize-matching sort p groups tool = option-matching sort groups (find tool p.tool_grantors)

-- The spec's disjunction over the caller's groups.
allowed-decide :
    (sort : List String → List String) (gs : List String) → (decide sort gs).allowed ≡ some_one gs
unfolding decide some_one
allowed-decide sort [] = refl
allowed-decide sort (g ∷ gs) = refl

some_one-matching :
    (cfg : Assoc (List String)) (tool : String) (grantors seen groups : List String)
    → ((g : String) → mem g grantors ≡ grants cfg g tool)
    → (some_one (matching grantors seen groups) || seen_any cfg tool seen)
      ≡ (grants_any cfg groups tool || seen_any cfg tool seen)
unfolding matching some_one grants_any seen_any
some_one-matching cfg tool grantors seen [] h = refl
some_one-matching cfg tool grantors seen (g ∷ groups) h = ground (
  arith,
  some_one-matching cfg tool grantors seen groups h,
  some_one-matching cfg tool grantors (g ∷ seen) groups h,
  h g,
  seen_any-mem cfg tool g seen,
)

-- A caller may use a tool exactly if one of its groups is configured for it, whatever the order in
-- which the configuration is read and whatever is repeated in it or in the token.
pub allowed-grants_any :
    (sort : List String → List String) (cfg : Assoc (List String)) (groups : List String)
    (tool : String)
    → (authorize sort (new_policy cfg) groups tool).allowed ≡ grants_any cfg groups tool
unfolding seen_any
allowed-grants_any sort cfg groups tool =
    let gs = grantors_of tool (new_policy cfg).tool_grantors in
    ground (
      arith,
      authorize-matching sort (new_policy cfg) groups tool,
      allowed-decide sort (matching gs [] groups),
      some_one-matching cfg tool gs [] groups (λ g. grantors-new_policy cfg g tool),
    )

-- The groups that a decision names are exactly the groups of the caller that the configuration
-- lets use the tool, if the sorting keeps the members of a list.
pub matched-grants :
    (sort : List String → List String) (cfg : Assoc (List String)) (groups : List String)
    (tool g : String)
    → ((xs : List String) → mem g (sort xs) ≡ mem g xs)
    → mem g (authorize sort (new_policy cfg) groups tool).matched_groups
      ≡ (mem g groups && grants cfg g tool)
unfolding mem
matched-grants sort cfg groups tool g h = ground (
  arith,
  authorize-matching sort (new_policy cfg) groups tool,
  mem-decide sort (matching (grantors_of tool (new_policy cfg).tool_grantors) [] groups) g h,
  mem-matching (grantors_of tool (new_policy cfg).tool_grantors) [] groups g,
  grantors-new_policy cfg g tool,
)
