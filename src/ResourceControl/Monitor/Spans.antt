-- ===== src/ResourceControl/Monitor/Spans.antt =====
-- internal/resourcecontrol/controller.go: the spells of pressure and of calm that the monitor
-- times, as relations on the samples that it was given, newest first.
use cliproxy_portal.Common.Float.{Float64}
use cliproxy_portal.Common.{
  ℕ, ◌+◌, ◌*◌, ◌≤◌, ◌≡◌, refl, ◌∙◌, ◌⊎◌, inl, inr, true, false, List, [], ◌∷◌, arith, str_eq,
}
use cliproxy_portal.ResourceControl.Policy.{Policy}
use cliproxy_portal.ResourceControl.Metrics.{Metrics, fresh, second}
use cliproxy_portal.ResourceControl.Controller.{Controller}
use cliproxy_portal.ResourceControl.Monitor.{is_high, is_memory, is_calm, update_metrics}

abbrev pub Samples : Float64 → Type 0
Samples F = List (Metrics F × ℕ)

module _ {F : Float64} where
  unfoldable pub run_samples : Controller F → Samples F → Controller F
  run_samples c [] = c
  run_samples c ((m, now) ∷ older) = update_metrics (run_samples c older) m now

  -- The samples since time s: the last one that counted was taken at t, each was fresh and at most
  -- ten seconds after the one before it, the first was high, and each was high or under memory
  -- pressure. A sample that is not newer than t is ignored.
  pub data HighSince (p : Policy F) : ℕ → ℕ → Samples F → Type 0 where
    start :
        {s t : ℕ} (m : Metrics F) (older : Samples F)
        → fresh m s ≡ true
        → is_high p m ≡ true
        → t ≡ m.at
        → HighSince p s t ((m, s) ∷ older)
    more :
        {s u t : ℕ} {older : Samples F} (m : Metrics F) (now : ℕ)
        → HighSince p s u older
        → fresh m now ≡ true
        → (is_high p m ≡ true) ⊎ (is_memory p m ≡ true)
        → m.at ≤ u + 10 * second
        → t ≡ m.at
        → HighSince p s t ((m, now) ∷ older)
    ignored :
        {s t : ℕ} {older : Samples F} (m : Metrics F) (now : ℕ)
        → HighSince p s t older
        → m.at ≤ t
        → HighSince p s t ((m, now) ∷ older)

  -- Likewise for calm: each sample is calm, none is high or under memory pressure.
  pub data CalmSince (p : Policy F) : ℕ → ℕ → Samples F → Type 0 where
    start :
        {s t : ℕ} (m : Metrics F) (older : Samples F)
        → fresh m s ≡ true
        → (is_calm p m ≡ true) × (is_high p m ≡ false) × (is_memory p m ≡ false)
        → t ≡ m.at
        → CalmSince p s t ((m, s) ∷ older)
    more :
        {s u t : ℕ} {older : Samples F} (m : Metrics F) (now : ℕ)
        → CalmSince p s u older
        → fresh m now ≡ true
        → (is_calm p m ≡ true) × (is_high p m ≡ false) × (is_memory p m ≡ false)
        → m.at ≤ u + 10 * second
        → t ≡ m.at
        → CalmSince p s t ((m, now) ∷ older)
    ignored :
        {s t : ℕ} {older : Samples F} (m : Metrics F) (now : ℕ)
        → CalmSince p s t older
        → m.at ≤ t
        → CalmSince p s t ((m, now) ∷ older)

  pub update-policy :
      (c : Controller F) (m : Metrics F) (now : ℕ) → (update_metrics c m now).policy ≡ c.policy
  unfolding update_metrics
  update-policy c m now = ground arith

  -- What one sample does to the start of the high spell.
  abbrev pub HighStep : Controller F → Metrics F → ℕ → Controller F → Type 0
  HighStep c m now d =
      (d.high_since ≡ 0)
      ⊎ (m.at ≤ c.time_sample) × (d.high_since ≡ c.high_since) × (d.time_sample ≡ c.time_sample)
      ⊎ (fresh m now ≡ true)
        × (is_high c.policy m ≡ true)
        × (d.high_since ≡ now)
        × (d.time_sample ≡ m.at)
      ⊎ (fresh m now ≡ true)
        × ((is_high c.policy m ≡ true) ⊎ (is_memory c.policy m ≡ true))
        × (m.at ≤ c.time_sample + 10 * second)
        × (d.high_since ≡ c.high_since)
        × (d.time_sample ≡ m.at)

  pub high_step :
      (c : Controller F) (m : Metrics F) (now : ℕ) → HighStep c m now (update_metrics c m now)
  unfolding update_metrics
  high_step c m now = ground arith

  abbrev pub IsCalmSample : Policy F → Metrics F → Type 0
  IsCalmSample p m = (is_calm p m ≡ true) × (is_high p m ≡ false) × (is_memory p m ≡ false)

  -- What one sample does to the start of the calm spell.
  abbrev pub CalmStep : Controller F → Metrics F → ℕ → Controller F → Type 0
  CalmStep c m now d =
      (d.recover_since ≡ 0)
      ⊎ (m.at ≤ c.time_sample)
        × (d.recover_since ≡ c.recover_since)
        × (d.time_sample ≡ c.time_sample)
      ⊎ (fresh m now ≡ true)
        × IsCalmSample c.policy m
        × (d.recover_since ≡ now)
        × (d.time_sample ≡ m.at)
      ⊎ (fresh m now ≡ true)
        × IsCalmSample c.policy m
        × (m.at ≤ c.time_sample + 10 * second)
        × (d.recover_since ≡ c.recover_since)
        × (d.time_sample ≡ m.at)

  -- A calm spell is timed only while admission is paused.
  abbrev pub IsTimed : Controller F → Type 0
  IsTimed c = (c.recover_since ≡ 0) ⊎ (str_eq c.paused "" ≡ false)

  pub calm_step :
      (c : Controller F) (m : Metrics F) (now : ℕ)
      → IsTimed c
      → CalmStep c m now (update_metrics c m now)
  unfolding update_metrics
  calm_step c m now i = ground arith

  pub update-IsTimed :
      (c : Controller F) (m : Metrics F) (now : ℕ) → IsTimed c → IsTimed (update_metrics c m now)
  unfolding update_metrics
  update-IsTimed c m now i = ground arith

  module _ (c : Controller F) (h : c.high_since ≡ 0) (r : c.recover_since ≡ 0) where
    pub run-policy : (l : Samples F) → (run_samples c l).policy ≡ c.policy
    unfolding run_samples
    run-policy [] = refl
    run-policy ((m, now) ∷ l) = update-policy (run_samples c l) m now ∙ run-policy l

    extend_high :
        (m : Metrics F) (now : ℕ) (l : Samples F) (d : Controller F)
        → ((run_samples c l).high_since ≡ 0)
          ⊎ HighSince c.policy (run_samples c l).high_since (run_samples c l).time_sample l
        → HighStep (run_samples c l) m now d
        → (d.high_since ≡ 0) ⊎ HighSince c.policy d.high_since d.time_sample ((m, now) ∷ l)
    extend_high m now l d ih (inl z) = inl z
    extend_high m now l d ih (inr (inl (late, e, t))) = elim ih [
      | inl z ↦ inl (e ∙ z)
      | inr span ↦ inr (rw (e, t) (ignored m now span late))
    ]
    extend_high m now l d ih (inr (inr (inl (f, high, e, t)))) =
        inr (rw e (start m l f (rw (run-policy l) at high) t))
    extend_high m now l d ih (inr (inr (inr (f, cause, near, e, t)))) = elim ih [
      | inl z ↦ inl (e ∙ z)
      | inr span ↦ inr (rw e (more m now span f (rw (run-policy l) at cause) near t))
    ]

    -- After any samples the start of the high spell is 0 or the start of a real one.
    pub high_since_lem :
        (l : Samples F)
        → ((run_samples c l).high_since ≡ 0)
          ⊎ HighSince c.policy (run_samples c l).high_since (run_samples c l).time_sample l
    unfolding run_samples
    high_since_lem [] = inl h
    high_since_lem ((m, now) ∷ l) =
        extend_high m now l (update_metrics (run_samples c l) m now) (high_since_lem l)
          (high_step (run_samples c l) m now)

    pub run-IsTimed : (l : Samples F) → IsTimed (run_samples c l)
    unfolding run_samples
    run-IsTimed [] = inl r
    run-IsTimed ((m, now) ∷ l) = update-IsTimed (run_samples c l) m now (run-IsTimed l)

    extend_calm :
        (m : Metrics F) (now : ℕ) (l : Samples F) (d : Controller F)
        → ((run_samples c l).recover_since ≡ 0)
          ⊎ CalmSince c.policy (run_samples c l).recover_since (run_samples c l).time_sample l
        → CalmStep (run_samples c l) m now d
        → (d.recover_since ≡ 0) ⊎ CalmSince c.policy d.recover_since d.time_sample ((m, now) ∷ l)
    extend_calm m now l d ih (inl z) = inl z
    extend_calm m now l d ih (inr (inl (late, e, t))) = elim ih [
      | inl z ↦ inl (e ∙ z)
      | inr span ↦ inr (rw (e, t) (ignored m now span late))
    ]
    extend_calm m now l d ih (inr (inr (inl (f, calm, e, t)))) =
        inr (rw e (start m l f (rw (run-policy l) at calm) t))
    extend_calm m now l d ih (inr (inr (inr (f, calm, near, e, t)))) = elim ih [
      | inl z ↦ inl (e ∙ z)
      | inr span ↦ inr (rw e (more m now span f (rw (run-policy l) at calm) near t))
    ]

    -- Likewise for the start of the calm spell.
    pub recover_since_lem :
        (l : Samples F)
        → ((run_samples c l).recover_since ≡ 0)
          ⊎ CalmSince c.policy (run_samples c l).recover_since (run_samples c l).time_sample l
    unfolding run_samples
    recover_since_lem [] = inl r
    recover_since_lem ((m, now) ∷ l) =
        extend_calm m now l (update_metrics (run_samples c l) m now) (recover_since_lem l)
          (calm_step (run_samples c l) m now (run-IsTimed l))
