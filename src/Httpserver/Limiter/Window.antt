-- ===== src/Httpserver/Limiter/Window.antt =====
-- internal/httpserver/limiter.go: how many attempts of a key pass in a window.
use cliproxy_portal.Common.{
  ℕ, suc, ◌+◌, ◌-◌, ◌≤◌, ◌<◌, min, max, String, ◌≡◌, refl, ◌∙◌, ◌⊎◌, inl, inr, Bool, true, false,
  none, some, List, [], ◌∷◌, arith, str_eq, eq_iff, eq_refl, ltb, if◌then◌else◌, Bool-cases, All, ℤ,
  pos, lookup, lookup-delete, lookup-insert,
}
use cliproxy_portal.Httpserver.Limiter.{
  Attempt, Limiter, found, renew, judge, allow, reset, Call, allows, resets, step, is_of, allowed,
}

-- A call that is of another key, or asks for the key at a time from lo to lo + window, with this
-- maximum and this window.
abbrev pub Asks : String → (max window lo : ℕ) → Call → Type 0
Asks key max window lo (allows key' max' window' block now) =
    (str_eq key' key ≡ false)
    ⊎ (str_eq key' key ≡ true)
      × (max' ≡ pos max)
      × (window' ≡ window)
      × (lo ≤ now)
      × (now ≤ lo + window)
Asks key max window lo (resets key') = str_eq key' key ≡ false

-- How many calls ask for the key.
abbrev pub asked : String → List Call → ℕ
asked key [] = 0
asked key (c ∷ cs) = let rest = asked key cs in if is_of key c then suc rest else rest

-- An entry within its window: it is not blocked and has room, or it has no room.
abbrev IsOpen : (max window lo : ℕ) → Attempt → Type 0
IsOpen max window lo v =
    (0 < v.reset)
    × (lo + window ≤ v.reset)
    × ((v.blocked_until ≡ 0) × (v.count ≤ max) ⊎ (max < v.count))

-- A call of another key leaves the key's entry alone.
allow-other :
    (l : Limiter) (key' key : String) (max : ℤ) (window block now : ℕ)
    → str_eq key' key ≡ false
    → lookup key (allow l key' max window block now).0 ≡ lookup key l
unfolding allow
allow-other l key' key max window block now e =
    elim (Bool-cases (ltb now (found (lookup key' l)).blocked_until)) [
      | inl blocked ↦ rw blocked refl
      | inr free ↦ rw (free, lookup-insert key' key _ l, e) refl
    ]

reset-other :
    (l : Limiter) (key' key : String)
    → str_eq key' key ≡ false
    → lookup key (reset l key') ≡ lookup key l
unfolding reset
reset-other l key' key e = rw (lookup-delete key' key l, e) refl

-- What one more attempt makes of an entry within its window.
next_attempt : Attempt → (max window block now : ℕ) → Attempt × Bool
next_attempt v max window block now =
    if ltb now v.blocked_until then (v, false) else judge (renew v window now) (pos max) block now

next_attempt-IsOpen :
    (v : Attempt) (max window lo block now : ℕ)
    → IsOpen max window lo v
    → lo ≤ now
    → now ≤ lo + window
    → IsOpen max window lo (next_attempt v max window block now).0
unfolding next_attempt judge
next_attempt-IsOpen v max window lo block now o h k = ground arith

next_attempt-count :
    (v : Attempt) (max window lo block now n : ℕ)
    → IsOpen max window lo v
    → now ≤ lo + window
    → (if (next_attempt v max window block now).1
        then suc (min n (max - (next_attempt v max window block now).0.count))
        else min n (max - (next_attempt v max window block now).0.count))
      ≡ min (suc n) (max - v.count)
unfolding next_attempt judge
next_attempt-count v max window lo block now n o k = ground arith

allow-some :
    (l : Limiter) (key' key : String) (max window block now : ℕ) (v : Attempt)
    → str_eq key' key ≡ true
    → lookup key l ≡ some v
    → (lookup key (allow l key' (pos max) window block now).0
        ≡ some (next_attempt v max window block now).0)
      × ((allow l key' (pos max) window block now).1 ≡ (next_attempt v max window block now).1)
unfolding allow next_attempt
allow-some l key' key max window block now v same e = elim (Bool-cases (ltb now v.blocked_until)) [
  | inl blocked ↦ rw ((eq_iff key' key).0 same, e, blocked) (e, refl)
  | inr free ↦
      rw ((eq_iff key' key).0 same, e, free, lookup-insert key key _ l, eq_refl key) (refl, refl)
]

-- The first attempt begins a window.
abbrev first_attempt : Attempt
first_attempt = record { count = 0; reset = 0; blocked_until = 0 }

allow-none :
    (l : Limiter) (key' key : String) (max window block now : ℕ)
    → str_eq key' key ≡ true
    → lookup key l ≡ none
    → (lookup key (allow l key' (pos max) window block now).0
        ≡ some (next_attempt first_attempt max window block now).0)
      × ((allow l key' (pos max) window block now).1
          ≡ (next_attempt first_attempt max window block now).1)
unfolding allow next_attempt
allow-none l key' key max window block now same e =
    let free : ltb now 0 ≡ false = ground arith in
    rw ((eq_iff key' key).0 same, e, free, lookup-insert key key _ l, eq_refl key) (refl, refl)

first_attempt-IsOpen :
    (max window lo block now : ℕ)
    → 0 < lo + window
    → lo ≤ now
    → IsOpen max window lo (next_attempt first_attempt max window block now).0
unfolding next_attempt judge
first_attempt-IsOpen max window lo block now p h = ground arith

first_attempt-count :
    (max window block now n : ℕ)
    → (if (next_attempt first_attempt max window block now).1
        then suc (min n (max - (next_attempt first_attempt max window block now).0.count))
        else min n (max - (next_attempt first_attempt max window block now).0.count))
      ≡ min (suc n) max
unfolding next_attempt judge
first_attempt-count max window block now n = ground arith

open-allowed :
    (key : String) (max window lo : ℕ) (cs : List Call) (l : Limiter) (v : Attempt)
    → lookup key l ≡ some v
    → IsOpen max window lo v
    → All (Asks key max window lo) cs
    → allowed key cs l ≡ min (asked key cs) (max - v.count)
unfolding allowed step
open-allowed key max window lo [] l v e o a = omega arith
open-allowed key max window lo (resets key' ∷ cs) l v e o a =
    open-allowed key max window lo cs (reset l key') v (reset-other l key' key a.0 ∙ e) o a.1
open-allowed key max window lo (allows key' max' window' block now ∷ cs) l v e o (inl other, a) =
    rw other (
      open-allowed key max window lo cs _ v
        (allow-other l key' key max' window' block now other ∙ e) o a)
open-allowed key max window lo (allows key' max' window' block now ∷ cs) l v e o
      (inr (same, m, w, h, k), a) =
    let (entry, answer) = allow-some l key' key max window block now v same e in
    let later =
      open-allowed key max window lo cs (allow l key' (pos max) window block now).0 _ entry
        (next_attempt-IsOpen v max window lo block now o h k) a in
    rw (m, w, same, answer, later) (next_attempt-count v max window lo block now (asked key cs) o k)

-- From a limiter without an entry for the key on, when the key is asked for at times within one
-- window only, always with the same maximum, and is not reset, exactly as many attempts of it are
-- allowed as the maximum has room for: all of them up to the maximum, and no more, whatever other
-- keys ask and however short the block is.
pub allowed-min :
    (key : String) (max window lo : ℕ) (cs : List Call) (l : Limiter)
    → lookup key l ≡ none
    → 0 < lo + window
    → All (Asks key max window lo) cs
    → allowed key cs l ≡ min (asked key cs) max
unfolding allowed step
allowed-min key max window lo [] l e p a = omega arith
allowed-min key max window lo (resets key' ∷ cs) l e p a =
    allowed-min key max window lo cs (reset l key') (reset-other l key' key a.0 ∙ e) p a.1
allowed-min key max window lo (allows key' max' window' block now ∷ cs) l e p (inl other, a) =
    rw other (
      allowed-min key max window lo cs _ (allow-other l key' key max' window' block now other ∙ e) p
        a)
allowed-min key max window lo (allows key' max' window' block now ∷ cs) l e p
      (inr (same, m, w, h, k), a) =
    let (entry, answer) = allow-none l key' key max window block now same e in
    let later =
      open-allowed key max window lo cs (allow l key' (pos max) window block now).0 _ entry
        (first_attempt-IsOpen max window lo block now p h) a in
    rw (m, w, same, answer, later) (first_attempt-count max window block now (asked key cs))
