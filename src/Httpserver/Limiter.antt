-- ===== src/Httpserver/Limiter.antt =====
-- internal/httpserver/limiter.go: attempts per key, and the block that follows too many of them.
-- A time is the number of nanoseconds since Go's zero time; a window and a block are not negative.
pub mod Window
use cliproxy_portal.Common.{
  ℕ, suc, ◌+◌, max, String, Bool, true, false, ◌||◌, Option, none, some, List, [], ◌∷◌, str_eq, ltb,
  ◌==◌, if◌then◌else◌, ℤ, ltb_ℤ, pos, lookup, delete, insert,
}

pub record Attempt : Type 0 where
  pub count : ℕ
  pub reset : ℕ
  pub blocked_until : ℕ

abbrev pub Limiter : Type 0
Limiter = List (String × Attempt)

-- Reading a missing key gives the zero value.
abbrev pub found : Option Attempt → Attempt
found none = record { count = 0; reset = 0; blocked_until = 0 }
found (some v) = v

-- The window of the attempt has ended, or none has begun.
abbrev pub renew : Attempt → (window now : ℕ) → Attempt
renew v window now =
    if v.reset == 0 || ltb v.reset now
    then record { count = 0; reset = now + window; blocked_until = 0 }
    else v

-- The entry that is stored and the answer, where the key is not blocked.
unfoldable pub judge : Attempt → (max : ℤ) → (block now : ℕ) → Attempt × Bool
judge v max block now =
    let counted : Attempt = record v { count = v.count + 1 } in
    if ltb_ℤ max (pos counted.count)
    then (record counted { blocked_until = now + block }, false)
    else (counted, true)

unfoldable pub allow :
    Limiter → (key : String) → (max : ℤ) → (window block now : ℕ) → Limiter × Bool
unfolding judge
allow l key max window block now =
    let v = found (lookup key l) in
    let (stored, answer) = judge (renew v window now) max block now in
    if ltb now v.blocked_until then (l, false) else (insert key stored l, answer)

unfoldable pub reset : Limiter → String → Limiter
reset l key = delete key l

-- What the handlers ask of the limiter, in the order in which they hold its mutex.
pub data Call : Type 0 where
  allows : (key : String) (max : ℤ) (window block now : ℕ) → Call
  resets : String → Call

unfoldable pub step : Call → Limiter → Limiter × Bool
step (allows key max window block now) l = allow l key max window block now
step (resets key) l = (reset l key, true)

abbrev pub is_of : String → Call → Bool
is_of key (allows key' max window block now) = str_eq key' key
is_of key (resets key') = false

-- How many attempts of the key are allowed in a run.
unfoldable pub allowed : String → List Call → Limiter → ℕ
allowed key [] l = 0
allowed key (c ∷ cs) l =
    let (l', answer) = step c l in
    let rest = allowed key cs l' in
    if is_of key c then (if answer then suc rest else rest) else rest

unfoldable pub run : List Call → Limiter → Limiter
run [] l = l
run (c ∷ cs) l = run cs (step c l).0
