-- ===== src/Security.antt =====
-- internal/security/security.go: phone numbers, passwords and the code that is typed in. A text is the
-- list of its bytes. The functions of package strings on Unicode, the hashes and argon2 are a
-- parameter.
use cliproxy_portal.Common.{ℕ, Bool, true, false, not, ◌&&◌, ◌||◌, Option, none, some, List, [], ◌∷◌, ltb, leb, ◌==◌, if◌then◌else◌, length, drop, codes, same}

pub record Functions : Type 0 where
  pub trim_space : List ℕ → List ℕ
  pub to_upper : List ℕ → List ℕ
  pub to_lower : List ℕ → List ℕ
  pub rune_count : List ℕ → ℕ
  pub sha256 : List ℕ → List ℕ
  pub hmac : List ℕ → List ℕ
  -- A password with the random salt of the call, nothing where there is no randomness.
  pub hash_password : List ℕ → Option (List ℕ)
  -- A hash and a password.
  pub verify_password : List ℕ → List ℕ → Bool

abbrev pub is_prefix : List ℕ → List ℕ → Bool
is_prefix [] text = true
is_prefix (a ∷ prefix) [] = false
is_prefix (a ∷ prefix) (b ∷ text) = (a == b) && is_prefix prefix text

abbrev pub contains : List ℕ → List ℕ → Bool
contains [] part = same part []
contains (c ∷ text) part = is_prefix part (c ∷ text) || contains text part

abbrev pub trim_prefix : List ℕ → List ℕ → List ℕ
trim_prefix prefix text = if is_prefix prefix text then drop (length prefix) text else text

-- The replacer's four characters.
abbrev is_filler : ℕ → Bool
is_filler b = b == 32 || b == b'-' || b == b'(' || b == b')'

abbrev without_fillers : List ℕ → List ℕ
without_fillers [] = []
without_fillers (b ∷ text) =
    let rest = without_fillers text in if is_filler b then rest else b ∷ rest

abbrev pub all_digits : List ℕ → Bool
all_digits [] = true
all_digits (b ∷ text) = leb b'0' b && leb b b'9' && all_digits text

abbrev starts_with_one : List ℕ → Bool
starts_with_one [] = false
starts_with_one (b ∷ text) = b == b'1'

-- A number of the mainland: eleven digits, the first of them 1.
unfoldable pub is_phone : List ℕ → Bool
is_phone phone = (length phone == 11) && starts_with_one phone && all_digits phone

unfoldable pub if_phone : List ℕ → Option (List ℕ)
if_phone phone = if is_phone phone then some phone else none

module _ (f : Functions) where
  unfoldable pub normalize_phone : List ℕ → Option (List ℕ)
  normalize_phone input =
      if_phone
        (trim_prefix (codes "0086") (trim_prefix (codes "+86") (without_fillers (f.trim_space input))))

  abbrev is_weak : List ℕ → Bool
  is_weak text =
      same text (codes "1234567890")
      || same text (codes "password")
      || same text (codes "qwertyuiop")
      || same text (codes "adminadmin")

  -- Whether a password is accepted.
  unfoldable pub valid_password : (password phone : List ℕ) → (admin : Bool) → Bool
  valid_password password phone admin =
      not (ltb (f.rune_count password) (if admin then 14 else 10))
      && not (not (same phone []) && contains password phone)
      && not (is_weak (f.to_lower (f.trim_space password)))

  -- The hash of a session's token, which is trimmed.
  abbrev pub token_hash : List ℕ → List ℕ
  token_hash token = f.sha256 (f.trim_space token)

