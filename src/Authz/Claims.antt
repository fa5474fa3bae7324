-- ===== src/Authz/Claims.antt =====
-- The groups that are read from a token's claim.
use solace_broker_mcp.Common.{
  ℕ, ◌≡◌, ◌≤◌, ◌∙◌, sym, ap, refl, String, List, [], ◌∷◌, ◌++◌, Option, none, some, if◌then◌else◌,
  arith, if_cases, length, take, length-take, length-append, ltb, take_all, take-append_length,
}
use solace_broker_mcp.Authz.{
  Value, null, scalar, text, array, texts, collect, groups_soft_cap, non_empty,
  resolve_groups_value,
}

pub strings : List (Option String) → List String
strings [] = []
strings (some s ∷ vs) = s ∷ strings vs
strings (none ∷ vs) = strings vs

append_nil : (xs : List String) → xs ++ [] ≡ xs
append_nil [] = refl
append_nil (x ∷ xs) = ap (λ l. x ∷ l) (append_nil xs)

append_snoc : (xs ys : List String) (y : String) → (xs ++ y ∷ []) ++ ys ≡ xs ++ y ∷ ys
append_snoc [] ys y = refl
append_snoc (x ∷ xs) ys y = ap (λ l. x ∷ l) (append_snoc xs ys y)

take_full : (cap : ℕ) (xs ys : List String) → cap ≡ length xs → take cap (xs ++ ys) ≡ xs
take_full cap xs ys e = ap (λ n. take n (xs ++ ys)) e ∙ take-append_length xs ys

collect-take :
    (cap : ℕ) (vs : List (Option String)) (result : List String)
    → length result ≤ cap
    → collect cap vs result ≡ take cap (result ++ strings vs)
unfolding collect strings
collect-take cap [] result h = sym (ap (take cap) (append_nil result) ∙ take_all cap result h)
collect-take cap (none ∷ vs) result h = collect-take cap vs result h
collect-take cap (some s ∷ vs) result h =
    if_cases (λ r. collect cap vs r ≡ take cap (result ++ s ∷ strings vs)) (ltb (length result) cap)
      _ _
      (λ e.
        collect-take cap vs (result ++ s ∷ []) (ground (arith, length-append result (s ∷ [])))
        ∙ ap (take cap) (append_snoc result (strings vs) s))
      (λ e.
        collect-take cap vs result h
        ∙ take_full cap result (strings vs) (ground arith)
        ∙ sym (take_full cap result (s ∷ strings vs) (ground arith)))

pub strings_of : Value → List String
strings_of null = []
strings_of scalar = []
strings_of (text s) = s ∷ []
strings_of (array vs) = strings vs
strings_of (texts gs) = gs

take-texts : (gs : List String) → (if ltb 250 (length gs) then take 250 gs else gs) ≡ take 250 gs
take-texts gs =
    if_cases (λ l. l ≡ take 250 gs) (ltb 250 (length gs)) _ _ (λ _. refl)
      (λ e. sym (take_all 250 gs (ground arith)))

non_empty-cases : (l gs : List String) → non_empty l ≡ some gs → gs ≡ l
unfolding non_empty
non_empty-cases [] gs h = absurd (cc h)
non_empty-cases (x ∷ l) gs h = cc h

resolved :
    (v : Value) (gs : List String)
    → resolve_groups_value v ≡ some gs
    → gs ≡ take groups_soft_cap (strings_of v)
unfolding resolve_groups_value strings_of strings
resolved null gs h = absurd (cc h)
resolved scalar gs h = absurd (cc h)
resolved (text s) gs h = ground arith
resolved (array []) gs h = cc h
resolved (array (v ∷ vs)) gs h =
    non_empty-cases _ gs h ∙ collect-take groups_soft_cap (v ∷ vs) [] (omega arith)
resolved (texts l) gs h = cc (h, take-texts l)

-- The groups that are resolved are the strings of the claim in their order, cut off after 250.
pub groups-strings :
    (v : Value) (gs : List String)
    → resolve_groups_value v ≡ some gs
    → (gs ≡ take groups_soft_cap (strings_of v)) × (length gs ≤ groups_soft_cap)
unfolding resolve_groups_value strings_of
groups-strings v gs h =
    let e = resolved v gs h in (e, ground (arith, e, length-take groups_soft_cap (strings_of v)))
