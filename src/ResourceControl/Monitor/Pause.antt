-- ===== src/ResourceControl/Monitor/Pause.antt =====
-- internal/resourcecontrol/controller.go: when the monitor pauses admission and when it resumes.
use cliproxy_portal.Common.Float.{Float64}
use cliproxy_portal.Common.{
  ℕ, ◌+◌, ◌*◌, ◌≤◌, ◌<◌, String, ◌≡◌, refl, sym, ◌≢◌, inl, inr, true, false, ◌∷◌, arith, str_eq,
  eq_iff,
}
use cliproxy_portal.ResourceControl.Metrics.{Metrics, fresh, second}
use cliproxy_portal.ResourceControl.Controller.{Controller}
use cliproxy_portal.ResourceControl.Monitor.{is_high, is_memory, update_metrics}
use cliproxy_portal.ResourceControl.Monitor.Spans.{
  Samples, run_samples, HighSince, CalmSince, more, high_since_lem, recover_since_lem, run-policy,
  IsCalmSample,
}

abbrev pub cpu_pressure : String
cpu_pressure = "cpu_pressure"

-- The three values of the pause are different texts.
pub empty-ne-cpu : ◌≢◌ {A = String} "" cpu_pressure
empty-ne-cpu e = let t : str_eq "" cpu_pressure ≡ true = (eq_iff "" cpu_pressure).1 e in cc

pub cpu-ne-empty : ◌≢◌ {A = String} cpu_pressure ""
cpu-ne-empty e = empty-ne-cpu (sym e)

memory-ne-empty : ◌≢◌ {A = String} "memory_pressure" ""
memory-ne-empty e =
    let t : str_eq "memory_pressure" "" ≡ true = (eq_iff "memory_pressure" "").1 e in cc

memory-ne-cpu : ◌≢◌ {A = String} "memory_pressure" cpu_pressure
memory-ne-cpu e =
    let t : str_eq "memory_pressure" cpu_pressure ≡ true =
      (eq_iff "memory_pressure" cpu_pressure).1 e in
    cc

module _ {F : Float64} where
  pause_step :
      (c : Controller F) (m : Metrics F) (now : ℕ)
      → c.paused ≢ cpu_pressure
      → (update_metrics c m now).paused ≡ cpu_pressure
      → ((update_metrics c m now).high_since + 15 * second ≤ now)
        × ((update_metrics c m now).high_since ≢ 0)
  unfolding update_metrics
  pause_step c m now h e = ground (arith, empty-ne-cpu, memory-ne-cpu)

  resume_step :
      (c : Controller F) (m : Metrics F) (now : ℕ)
      → c.paused ≢ ""
      → (update_metrics c m now).paused ≡ ""
      → (c.recover_since ≢ 0)
        × (c.recover_since + 10 * second ≤ now)
        × (fresh m now ≡ true)
        × IsCalmSample c.policy m
        × (m.at ≤ c.time_sample + 10 * second)
  unfolding update_metrics
  resume_step c m now h e = ground (arith, eq_iff c.paused "", cpu-ne-empty, memory-ne-empty)

  module _ (c : Controller F) (h : c.high_since ≡ 0) (r : c.recover_since ≡ 0) where
    -- Take a controller in which no spell is being timed, and any samples after that. If the last
    -- sample pauses admission for CPU pressure, then a high spell began at least 15 seconds
    -- before it: since then every counted sample was fresh, within ten seconds of the one before,
    -- and high or under memory pressure, the first of them high.
    pub pause-HighSince :
        (l : Samples F) (m : Metrics F) (now : ℕ)
        → (run_samples c l).paused ≢ cpu_pressure
        → (run_samples c ((m, now) ∷ l)).paused ≡ cpu_pressure
        → (s : ℕ) × (t : ℕ) × HighSince c.policy s t ((m, now) ∷ l) × (s + 15 * second ≤ now)
    unfolding run_samples
    pause-HighSince l m now before after =
        let (long, some_span) = pause_step (run_samples c l) m now before after in
        elim (high_since_lem c h r ((m, now) ∷ l)) [
          | inl z ↦ absurd (some_span z)
          | inr span ↦ (_, _, span, long)
        ]

    -- Likewise, if the last sample lifts a pause, then a calm spell began at least 10 seconds
    -- before it: since then every counted sample was fresh, within ten seconds of the one before,
    -- at or below both recovery thresholds, and neither high nor under memory pressure.
    pub resume-CalmSince :
        (l : Samples F) (m : Metrics F) (now : ℕ)
        → (run_samples c l).paused ≢ ""
        → (run_samples c ((m, now) ∷ l)).paused ≡ ""
        → (s : ℕ) × (t : ℕ) × CalmSince c.policy s t ((m, now) ∷ l) × (s + 10 * second ≤ now)
    unfolding run_samples
    resume-CalmSince l m now before after =
        let (some_span, long, f, calm, near) = resume_step (run_samples c l) m now before after in
        elim (recover_since_lem c h r l) [
          | inl z ↦ absurd (some_span z)
          | inr span ↦
              (_, m.at, more m now span f (rw (run-policy c h r l) at calm) near refl, long)
        ]

  -- A sample under memory pressure whose CPU is not high does not end the high spell: when the
  -- next sample, at most ten seconds later, is high and no longer under memory pressure, and the
  -- spell began 15 seconds before, admission is paused for CPU pressure although the CPU was not
  -- high throughout.
  pub pause_without_high :
      (c : Controller F) (m m' : Metrics F) (now now' : ℕ)
      → c.high_since ≢ 0
      → c.time_sample < m.at
      → m.at ≤ c.time_sample + 10 * second
      → fresh m now ≡ true
      → is_memory c.policy m ≡ true
      → is_high c.policy m ≡ false
      → m.at < m'.at
      → m'.at ≤ m.at + 10 * second
      → fresh m' now' ≡ true
      → is_memory c.policy m' ≡ false
      → is_high c.policy m' ≡ true
      → c.high_since + 15 * second ≤ now'
      → (update_metrics (update_metrics c m now) m' now').paused ≡ cpu_pressure
  unfolding update_metrics
  pause_without_high c m m' now now' a b d e f g h i j k l n = ground arith
