-- ===== src/Authz/Listing.antt =====
-- What a filtered tools/list shows.
use solace_broker_mcp.Common.{
  ℕ, ◌+◌, ◌≡◌, ◌≤◌, ◌⊎◌, refl, String, List, [], ◌∷◌, Bool, true, false, Option, none, some,
  if◌then◌else◌, arith, length, ◌&&◌, ◌||◌,
}
use solace_broker_mcp.Authz.{
  same, mem, visible, filter_tools, list_filter_outcome, Reason, missing_claim, not_permitted,
  unfiltered, filtered,
}

pub listed : String → List (Option String) → Bool
listed tool [] = false
listed tool (none ∷ tools) = listed tool tools
listed tool (some t ∷ tools) = same tool t || listed tool tools

-- The entries that the caller may not see.
pub hidden : (String → Bool) → Bool → List (Option String) → ℕ
hidden allowed present [] = 0
hidden allowed present (none ∷ tools) = hidden allowed present tools
hidden allowed present (some t ∷ tools) =
    (if visible allowed present t then 0 else 1) + hidden allowed present tools

visible-same :
    (allowed : String → Bool) (present : Bool) (a b : String)
    → same a b ≡ true
    → visible allowed present a ≡ visible allowed present b
unfolding same
visible-same allowed present a b h = ground arith

-- A tool is shown exactly if it is in the list and is exempt, or the groups are known and the
-- policy allows it; and every entry of the list is shown, hidden or nil.
pub filter_tools-visible :
    (allowed : String → Bool) (present : Bool) (tools : List (Option String)) (tool : String)
    → (mem tool (filter_tools allowed present tools).kept
        ≡ (listed tool tools && visible allowed present tool))
      × (length (filter_tools allowed present tools).kept
            + hidden allowed present tools
            + (filter_tools allowed present tools).nil_tools
          ≡ length tools)
unfolding filter_tools listed hidden visible mem
filter_tools-visible allowed present [] tool = (refl, refl)
filter_tools-visible allowed present (none ∷ tools) tool =
    ground (arith, filter_tools-visible allowed present tools tool)
filter_tools-visible allowed present (some t ∷ tools) tool =
    ground
      (arith, filter_tools-visible allowed present tools tool, visible-same allowed present tool t)

granted-present :
    (allowed : String → Bool) (tools : List (Option String))
    → (filter_tools allowed false tools).granted ≡ 0
unfolding filter_tools
granted-present allowed [] = refl
granted-present allowed (none ∷ tools) = granted-present allowed tools
granted-present allowed (some t ∷ tools) = ground (arith, granted-present allowed tools)

-- The reason that is logged agrees with what was done: `unfiltered` means that nothing was hidden
-- and no entry was nil, `filtered` that something was granted and something left out, and the
-- other two that nothing was granted.
pub outcome-agrees :
    (allowed : String → Bool) (present : Bool) (tools : List (Option String)) (r : Reason)
    → list_filter_outcome present
        (filter_tools allowed present tools).granted
        (length (filter_tools allowed present tools).kept)
        (length tools)
      ≡ r
    → ((r ≡ unfiltered)
        × (hidden allowed present tools ≡ 0)
        × ((filter_tools allowed present tools).nil_tools ≡ 0))
      ⊎ ((r ≡ filtered)
          × (1 ≤ (filter_tools allowed present tools).granted)
          × (1 ≤ hidden allowed present tools + (filter_tools allowed present tools).nil_tools))
      ⊎ (((r ≡ missing_claim) ⊎ (r ≡ not_permitted))
          × ((filter_tools allowed present tools).granted ≡ 0))
unfolding list_filter_outcome
outcome-agrees allowed present tools r h =
    ground (arith, filter_tools-visible allowed present tools "", granted-present allowed tools)
