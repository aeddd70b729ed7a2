-- ===== src/ResourceControl/Policy.antt =====
-- internal/resourcecontrol/policy.go: the protection policy and its validation.
use cliproxy_portal.Common.Float.{Float64}
use cliproxy_portal.Common.{
  ℕ, ◌^◌, String, ◌≡◌, ◌⊎◌, Bool, false, not, ◌&&◌, ◌||◌, Option, none, some, str_eq, if◌then◌else◌,
  ℤ, ◌≤ℤ◌, ltb_ℤ, pos,
}

abbrev pub mib : ℕ
mib = 2 ^ 20

pub record Policy (F : Float64) : Type 0 where
  pub revision : ℤ
  pub mode : String
  pub global : ℤ
  pub per_user : ℤ
  pub body_mib : ℤ
  pub cpu_percent : F.Value
  pub memory_mib : ℤ

pub data PolicyError : Type 0 where
  invalid_policy : PolicyError

unfoldable pub default_policy : (F : Float64) → Policy F
default_policy F = record {
  revision = pos 1;
  mode = "observe";
  global = pos 2;
  per_user = pos 1;
  body_mib = pos 10;
  cpu_percent = F.of_int (pos 90);
  memory_mib = pos 768;
}

module _ {F : Float64} where
  open F use {lt, is_nan, is_inf, of_int}

  -- The CPU threshold is a number between 0 and 100.
  abbrev pub bad_percent : Policy F → Bool
  bad_percent p =
      is_nan p.cpu_percent
      || is_inf p.cpu_percent
      || lt p.cpu_percent (of_int (pos 0))
      || lt (of_int (pos 100)) p.cpu_percent

  unfoldable pub validate : Policy F → Option PolicyError
  validate p =
      if ltb_ℤ p.revision (pos 1)
        || (not (str_eq p.mode "observe") && not (str_eq p.mode "enforce"))
        || ltb_ℤ p.global (pos 0)
        || ltb_ℤ (pos 128) p.global
        || ltb_ℤ p.per_user (pos 0)
        || ltb_ℤ (pos 128) p.per_user
        || (ltb_ℤ (pos 0) p.global && ltb_ℤ p.global p.per_user)
        || ltb_ℤ p.body_mib (pos 0)
        || ltb_ℤ (pos 128) p.body_mib
        || bad_percent p
        || ltb_ℤ p.memory_mib (pos 0)
        || ltb_ℤ (pos 1048576) p.memory_mib
      then some invalid_policy
      else none

  -- What a stored policy satisfies once it has been validated.
  pub record IsValid (p : Policy F) : Type 0 where
    pub revised : pos 1 ≤ℤ p.revision
    pub known_mode : (p.mode ≡ "observe") ⊎ (p.mode ≡ "enforce")
    pub global_low : pos 0 ≤ℤ p.global
    pub global_high : p.global ≤ℤ pos 128
    pub user_low : pos 0 ≤ℤ p.per_user
    pub user_high : p.per_user ≤ℤ pos 128
    pub user_within : (p.global ≡ pos 0) ⊎ (p.per_user ≤ℤ p.global)
    pub body_low : pos 0 ≤ℤ p.body_mib
    pub body_high : p.body_mib ≤ℤ pos 128
    pub percent : bad_percent p ≡ false
    pub memory_low : pos 0 ≤ℤ p.memory_mib
    pub memory_high : p.memory_mib ≤ℤ pos 1048576
