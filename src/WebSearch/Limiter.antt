-- ===== src/WebSearch/Limiter.antt =====
-- `SlidingWindowRateLimiter` of ai-service/app/agent/tools/web_search_tool.py. The clock is read in whole
-- ticks, and `window` is `window_seconds` in ticks.
pub mod Spacing
use mkc.Prelude.{
  ℕ, suc, ◌+◌, ◌-◌, Bool, true, false, List, [], ◌∷◌, ◌++◌, length, leb, if◌then◌else◌,
}
use mkc.Exceptions.{Result, ok, raise, other}
use mkc.Chunking.{ℤ, pos, negsuc}

-- The loop that removes the calls which are a window old
unfoldable pub expire : ℕ → ℕ → List ℕ → List ℕ
expire window now [] = []
expire window now (call ∷ calls) =
    let rest = expire window now calls in if leb window (now - call) then rest else call ∷ calls

-- The rest of `acquire`, where the limit is positive; `RateLimitExceededError` is `other`.
unfoldable pub acquire_within : ℕ → ℕ → List ℕ → Result {0} Unit × List ℕ
acquire_within limit now calls =
    if leb limit (length calls) then (raise other, calls) else (ok tt, calls ++ (now ∷ []))

-- `acquire` at a time: whether it returns, and the calls that are kept
unfoldable pub acquire : ℤ → ℕ → ℕ → List ℕ → Result {0} Unit × List ℕ
acquire (pos (suc n)) window now calls = acquire_within (suc n) now (expire window now calls)
acquire _ window now calls = (raise other, calls)
