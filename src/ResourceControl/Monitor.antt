-- ===== src/ResourceControl/Monitor.antt =====
-- internal/resourcecontrol/controller.go: `UpdateMetrics`, which pauses admission under pressure
-- and resumes it after a calm spell.
pub mod Spans
pub mod Pause
use cliproxy_portal.Common.Float.{Float64}
use cliproxy_portal.Common.{
  ℕ, ◌+◌, ◌*◌, max, Bool, ◌&&◌, ◌||◌, Option, none, some, str_eq, ltb, leb, ◌==◌, if◌then◌else◌, ℤ,
  ltb_ℤ, is_zero, pos,
}
use cliproxy_portal.ResourceControl.Policy.{Policy}
use cliproxy_portal.ResourceControl.Metrics.{Metrics, fresh, used_mib, second}
use cliproxy_portal.ResourceControl.History.{HistoryPoint, add, truncate}
use cliproxy_portal.ResourceControl.Controller.{Controller}

-- `if t.IsZero() { t = now }`.
abbrev pub since : ℕ → ℕ → ℕ
since t now = if t == 0 then now else t

module _ (F : Float64) where
  unfoldable pub memory_recovery_threshold : ℤ → F.Value
  memory_recovery_threshold limit =
      let budget = F.of_int limit in
      F.max (F.sub budget (F.max (F.of_int (pos 32)) (F.mul budget (F.ratio 5 100))))
        (F.div budget (F.of_int (pos 2)))

module _ {F : Float64} where
  open F use {lt, le, eq, sub, mul, div, round, of_int}

  -- The three judgements of a sample under a policy.
  unfoldable pub is_high : Policy F → Metrics F → Bool
  is_high p m = lt (of_int (pos 0)) p.cpu_percent && le p.cpu_percent m.cpu_percent

  unfoldable pub is_low : Policy F → Metrics F → Bool
  is_low p m =
      eq p.cpu_percent (of_int (pos 0))
      || le m.cpu_percent
          (F.max (sub p.cpu_percent (of_int (pos 15))) (div p.cpu_percent (of_int (pos 2))))

  unfoldable pub is_memory : Policy F → Metrics F → Bool
  is_memory p m = ltb_ℤ (pos 0) p.memory_mib && le (of_int p.memory_mib) (used_mib m)

  -- CPU and memory are both at or below their recovery thresholds.
  unfoldable pub is_calm : Policy F → Metrics F → Bool
  unfolding is_low memory_recovery_threshold
  is_calm p m =
      is_low p m
      && (is_zero p.memory_mib || le (used_mib m) (memory_recovery_threshold F p.memory_mib))

  history_used : Metrics F → Option F.Value → F.Value × F.Value
  history_used m none = (sub m.total_mib m.available_mib, m.total_mib)
  history_used m (some used) = (used, m.host_total_mib)

  history_point : Metrics F → HistoryPoint F
  unfolding history_used
  history_point m =
      let ten = of_int (pos 10) in
      let (used, total) = history_used m m.host_used_mib in
      record {
        at = truncate m.at;
        cpu_percent = div (round (mul m.cpu_percent ten)) ten;
        used_mib = div (round (mul used ten)) ten;
        total_mib = div (round (mul total ten)) ten;
      }

  abbrev reset_spans : Controller F → Controller F
  reset_spans c = record c { high_since = 0; recover_since = 0 }

  under_high : Controller F → ℕ → Controller F
  under_high c now = record c {
    high_since = since c.high_since now;
    paused = if leb (since c.high_since now + 15 * second) now then "cpu_pressure" else c.paused;
    recover_since = 0;
  }

  recover : Controller F → ℕ → Controller F
  recover c now =
      if leb (since c.recover_since now + 10 * second) now
      then record c { paused = ""; recover_since = 0 }
      else record c { recover_since = since c.recover_since now }

  -- What a fresh sample does once it is recorded.
  unfoldable pub judge : Controller F → Metrics F → ℕ → Controller F
  unfolding under_high recover
  judge c m now =
      if is_memory c.policy m
      then record c { paused = "memory_pressure"; recover_since = 0 }
      else if is_high c.policy m
      then under_high c now
      else let c' : Controller F = record c { high_since = 0 } in
        if str_eq c.paused ""
        then c'
        else if is_calm c.policy m
        then recover c' now
        else record c' { recover_since = 0 }

  -- A newer sample is stored; one that comes more than ten seconds after the last ends both spells.
  observe : Controller F → Metrics F → Controller F
  observe c m = record (if ltb (c.time_sample + 10 * second) m.at then reset_spans c else c) {
    metrics = m;
    time_sample = m.at;
  }

  remember : Controller F → Metrics F → Controller F
  unfolding history_point
  remember c m = record c { history = add c.history (history_point m) }

  unfoldable pub update_metrics : Controller F → Metrics F → ℕ → Controller F
  unfolding judge observe remember
  update_metrics c m now =
      if leb m.at c.time_sample
      then c
      else if fresh m now
      then judge (remember (observe c m) m) m now
      else reset_spans (observe c m)
