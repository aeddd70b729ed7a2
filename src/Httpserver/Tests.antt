-- ===== src/Httpserver/Tests.antt =====
-- internal/httpserver/limiter.go: a short run of the limiter.
use cliproxy_portal.Common.{
  min, ◌≡◌, refl, inl, inr, List, [], ◌∷◌, arith, All, pos, lookup, delete, insert,
}
use cliproxy_portal.Httpserver.Limiter.{Call, allows, resets, reset, allow, step, allowed, judge}
use cliproxy_portal.Httpserver.Limiter.Window.{Asks, asked, allowed-min}

-- Three attempts of one key, two of which the maximum has room for, and one of another key.
abbrev calls : List Call
calls =
    allows "a" (pos 2) 100 5 10
    ∷ allows "b" (pos 1) 100 5 11
    ∷ allows "a" (pos 2) 100 5 12
    ∷ resets "b"
    ∷ allows "a" (pos 2) 100 5 30
    ∷ []

calls-Asks : All (Asks "a" 2 100 10) calls
calls-Asks = (
  inr (refl, refl, refl, omega arith, omega arith),
  (
    inl refl,
    (
      inr (refl, refl, refl, omega arith, omega arith),
      (refl, (inr (refl, refl, refl, omega arith, omega arith), tt)),
    ),
  ),
)

allowed_test : allowed "a" calls [] ≡ 2
unfolding allowed step allow judge reset lookup insert delete
allowed_test = refl

allowed-min_example : allowed "a" calls [] ≡ min (asked "a" calls) 2
unfolding lookup
allowed-min_example = allowed-min "a" 2 100 10 calls [] refl (omega arith) calls-Asks
