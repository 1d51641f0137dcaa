-- ===== src/Crawler/RateLimiter.antt =====
-- legacy/packages/crawler/src/rate-limiter.ts: the least interval between two requests to a domain.
pub mod Spacing
use content_gap.Prelude.{
  ℕ, ◌+◌, ◌-◌, ◌*◌, ◌/◌, ◌≤◌, Bool, List, [], ◌∷◌, Option, none, some, if◌then◌else◌, ◌==◌,
}
use content_gap.Prelude.Text.{Text, text_eq}

-- `perDomainRps`, a number of requests in a number of seconds.
pub record Rate : Type 0 where
  pub requests : ℕ
  pub seconds : ℕ

-- `Math.ceil(1000 / perDomainRps)`, or 0 without a rate.
unfoldable pub min_interval_ms : Rate → ℕ
min_interval_ms r =
    if r.requests == 0 then 0 else (1000 * r.seconds + (r.requests - 1)) / r.requests

-- The map `nextAllowed`
abbrev pub NextAllowed : Type 0
NextAllowed = Text → Option ℕ

abbrev pub set_allowed : Text → ℕ → NextAllowed → NextAllowed
set_allowed domain time m d = if text_eq d domain then some time else m d

-- `this.nextAllowed.get(domain) ?? 0`
unfoldable pub earliest : NextAllowed → Text → ℕ
earliest m domain = elim (m domain) [ none ↦ 0 | some time ↦ time ]

-- `Math.max(0, earliest - now)`
unfoldable pub wait_ms : NextAllowed → Text → ℕ → ℕ
unfolding earliest
wait_ms m domain now = earliest m domain - now

-- A call of `acquire`: the domain, and what the clock says when it starts and when its sleep is over.
pub record Call : Type 0 where
  pub domain : Text
  pub now : ℕ
  pub granted : ℕ

unfoldable pub acquire : ℕ → Call → NextAllowed → NextAllowed
acquire min_interval c m =
    if min_interval == 0 then m else set_allowed c.domain (c.granted + min_interval) m
