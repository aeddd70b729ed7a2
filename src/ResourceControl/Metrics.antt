-- ===== src/ResourceControl/Metrics.antt =====
-- internal/resourcecontrol/policy.go and external.go: one sample of the monitor and when it is
-- fresh. A time is the number of nanoseconds since Go's zero time, which is 0; `t.Sub(u)` stands
-- in comparisons only, and these are written without a subtraction.
use cliproxy_portal.Common.Float.{Float64}
use cliproxy_portal.Common.{
  ℕ, ◌+◌, ◌*◌, String, Bool, true, false, not, ◌&&◌, ◌||◌, Option, none, some, str_eq, ltb, leb,
  ◌==◌, if◌then◌else◌, ℤ, ltb_ℤ, leb_ℤ, pos,
}

abbrev pub second : ℕ
second = 1000000000

pub record Metrics (F : Float64) : Type 0 where
  pub at : ℕ
  pub host_id : String
  pub cpu_count : ℤ
  pub cpu_percent : F.Value
  pub total_mib : F.Value
  pub available_mib : F.Value
  pub suite_used_mib : Option F.Value
  pub host_used_mib : Option F.Value
  pub host_total_mib : F.Value
  pub error : String

abbrev is_some {ℓ} : {A : Type ℓ} → Option A → Bool
is_some none = false
is_some (some a) = true

abbrev pub get_or {ℓ} : {A : Type ℓ} → Option A → A → A
get_or none d = d
get_or (some a) d = a

-- The collector's file, decoded: a missing number is `none`.
pub record ExternalMetrics (F : Float64) : Type 0 where
  pub source : String
  pub at : ℕ
  pub cpu_count : ℤ
  pub cpu_percent : Option F.Value
  pub host_used_mib : Option F.Value
  pub host_total_mib : F.Value

pub data SampleError : Type 0 where
  unavailable invalid_or_expired : SampleError

-- What reading the file gives: no file, a file of so many bytes that is not JSON, or one that is.
pub data FileRead (F : Float64) : Type 0 where
  missing : FileRead F
  malformed : ℕ → FileRead F
  decoded : ℕ → ExternalMetrics F → FileRead F

module _ (F : Float64) where
  open F use {Value, lt, is_nan, is_inf, of_int}

  bad_cpu : Option Value → Bool
  bad_cpu none = true
  bad_cpu (some v) = lt v (of_int (pos 0)) || lt (of_int (pos 100)) v || is_nan v || is_inf v

  bad_used : Value → Option Value → Bool
  bad_used total none = true
  bad_used total (some used) = lt used (of_int (pos 0)) || lt total used || is_nan used

module _ {F : Float64} where
  open F use {Value, lt, le, is_nan, is_inf, sub, of_int}

  unfoldable pub used_mib : Metrics F → Value
  used_mib m = get_or m.suite_used_mib (F.max (of_int (pos 0)) (sub m.total_mib m.available_mib))

  unfoldable pub fresh : Metrics F → ℕ → Bool
  unfolding used_mib
  fresh m now =
      str_eq m.error ""
      && ltb_ℤ (pos 0) m.cpu_count
      && lt (of_int (pos 0)) m.total_mib
      && not (is_inf m.total_mib)
      && le (of_int (pos 0)) m.available_mib
      && le m.available_mib m.total_mib
      && le (of_int (pos 0)) (used_mib m)
      && le (used_mib m) m.total_mib
      && le (of_int (pos 0)) m.cpu_percent
      && le m.cpu_percent (of_int (pos 100))
      && not (str_eq m.host_id "")
      && (not (str_eq m.host_id "cpa-suite") || is_some m.suite_used_mib)
      && not (m.at == 0)
      && ltb now (m.at + 10 * second)
      && ltb m.at (now + 5 * second)

  bad_external : ExternalMetrics F → ℕ → ℕ → Bool
  unfolding bad_cpu bad_used
  bad_external v size now =
      ltb 16384 size
      || not (str_eq v.source "esxi")
      || v.at == 0
      || leb (v.at + 15 * second) now
      || ltb (now + 5 * second) v.at
      || leb_ℤ v.cpu_count (pos 0)
      || bad_cpu F v.cpu_percent
      || le v.host_total_mib (of_int (pos 0))
      || is_inf v.host_total_mib
      || is_nan v.host_total_mib
      || bad_used F v.host_total_mib v.host_used_mib

  -- A refused file leaves the sample as it was, beside the error.
  unfoldable pub apply_external_metrics :
      Metrics F → FileRead F → ℕ → Metrics F × Option SampleError
  unfolding bad_external
  apply_external_metrics m missing now = (m, some unavailable)
  apply_external_metrics m (malformed size) now = (m, some invalid_or_expired)
  apply_external_metrics m (decoded size v) now =
      if bad_external v size now then (m, some invalid_or_expired) else (
        record m {
          cpu_percent = get_or v.cpu_percent m.cpu_percent;
          cpu_count = v.cpu_count;
          host_used_mib = v.host_used_mib;
          host_total_mib = v.host_total_mib;
        },
        none,
      )
