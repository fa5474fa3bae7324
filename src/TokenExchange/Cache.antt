-- ===== src/TokenExchange/Cache.antt =====
-- internal/oauth/cache/otter.go: the cache of tokens. What the library otter still holds of a key is an
-- argument. Times are nanoseconds.
use Prim.Native.Nat.{min}
use solace_broker_mcp.Common.{
  ℕ, ◌-◌, ◌≤◌, ◌<◌, Option, none, some, ltb, ◌==◌, if◌then◌else◌, arith, String,
}
use solace_broker_mcp.Common.Assoc.{Assoc, put, del}
use solace_broker_mcp.TokenExchange.Response.{Token}

unfoldable pub derive_ttl : (now expires_at max_ttl : ℕ) → ℕ
derive_ttl now expires_at max_ttl = min (expires_at - now) max_ttl

-- The closure that computes how long otter keeps an entry: never 0, which otter takes for "for ever".
pub expire_after : (now expires_at max_ttl : ℕ) → ℕ
expire_after now expires_at max_ttl =
    let ttl = derive_ttl now expires_at max_ttl in if ltb 0 ttl then ttl else 1

-- `Get`, on what otter has under the key.
unfoldable pub cache_get : (now : ℕ) → Option Token → Option Token
cache_get now none = none
cache_get now (some entry) = if ltb now entry.expires_at then some entry else none

pub data PutStatus : Type 0 where
  put_stored put_dropped_ttl : PutStatus

-- `Put`, on what otter holds.
unfoldable pub cache_put :
    (now max_ttl : ℕ) → String → Token → Assoc Token → Assoc Token × PutStatus
cache_put now max_ttl key entry held =
    if derive_ttl now entry.expires_at max_ttl == 0
    then (held, put_dropped_ttl)
    else (put key entry held, put_stored)

unfoldable pub cache_delete : String → Assoc Token → Assoc Token
cache_delete key held = del key held

-- The time that otter is told to keep an entry for is at least one nanosecond, and no longer than the
-- entry's own remaining lifetime or the configured one, where these are at least that.
pub expire_after_bounds :
    (now expires_at max_ttl : ℕ)
    → (0 < expire_after now expires_at max_ttl)
      × (now < expires_at
          → 0 < max_ttl
          → (expire_after now expires_at max_ttl ≤ expires_at - now)
            × (expire_after now expires_at max_ttl ≤ max_ttl))
unfolding expire_after derive_ttl
expire_after_bounds now expires_at max_ttl = (ground arith, λ h k. (ground arith, ground arith))
