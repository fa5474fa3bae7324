-- ===== src/Composite/Pages/Advice.antt =====
-- The advice that fetchPaginated of internal/composite/executor.go gives with a list that it cuts short,
-- and internal/composite/bound.go takes back.
use Prim.Native.String.{String, ◌++◌ as push}
use solace_broker_mcp.Common.{ℕ}

abbrev pub cap_max : ℕ
cap_max = 500

pub max_results_advice : (ℕ → String) → String
max_results_advice itoa = push " Use maxResults (up to " (push (itoa cap_max) ") to retrieve more.")

pub cursor_advice : (ℕ → String) → String
cursor_advice itoa =
    push " More exist: pass nextCursor as cursor to get the next page (maxResults up to "
      (push (itoa cap_max) " per page).")
