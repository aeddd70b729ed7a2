-- ===== src/ResourceControl/Admission/Decision.antt =====
-- internal/resourcecontrol/controller.go: exactly when a request is admitted.
use cliproxy_portal.Common.Float.{Float64}
use cliproxy_portal.Common.{
  ℕ, String, ◌≡◌, refl, ◌≢◌, ◌↔◌, ◌⊎◌, inl, inr, true, false, not, ◌&&◌, ◌||◌, arith, str_eq,
  eq_iff, Bool-cases, length, ℤ, ◌+ℤ◌, ◌≤ℤ◌, ltb_ℤ, leb_ℤ, pos,
}
use cliproxy_portal.ResourceControl.Policy.{Policy}
use cliproxy_portal.ResourceControl.Metrics.{fresh, used_mib}
use cliproxy_portal.ResourceControl.Controller.{Controller, State, Gap, enforced, event_with_status}
use cliproxy_portal.ResourceControl.Admission.{
  granted, count_of, admission_reason, grant, admit, too_large, acquire_request,
}

differ : (a b : String) → str_eq a b ≡ false → a ≢ b
differ a b h e = let t : str_eq a b ≡ true = (eq_iff a b).1 e in cc

under_limit :
    (limit n : ℤ)
    → (limit ≤ℤ pos 0) ⊎ (n +ℤ pos 1 ≤ℤ limit)
    → (ltb_ℤ (pos 0) limit && leb_ℤ limit n) ≡ false
under_limit limit n h = ground arith

under_backlog :
    (limit n : ℤ)
    → (limit ≤ℤ pos 0) ⊎ (n +ℤ pos 1 ≤ℤ limit +ℤ pos 4)
    → (ltb_ℤ (pos 0) limit && leb_ℤ (limit +ℤ pos 4) n) ≡ false
under_backlog limit n h = ground arith

module _ {F : Float64} where
  -- Nothing speaks against one more request of the user. A limit of 0 or less is no limit.
  pub record Admits (p : Policy F) (c : Controller F) (user : String) (now : ℕ) : Type 0 where
    pub below_global : (p.global ≤ℤ pos 0) ⊎ (c.active +ℤ pos 1 ≤ℤ p.global)
    pub below_user : (p.per_user ≤ℤ pos 0) ⊎ (count_of c.users user +ℤ pos 1 ≤ℤ p.per_user)
    pub below_backlog : (p.global ≤ℤ pos 0) ⊎ (c.processing +ℤ pos 1 ≤ℤ p.global +ℤ pos 4)
    pub monitored :
        (F.lt (F.of_int (pos 0)) p.cpu_percent ≡ false) × (p.memory_mib ≤ℤ pos 0)
        ⊎ (fresh c.metrics now ≡ true)
    pub below_memory :
        (p.memory_mib ≤ℤ pos 0) ⊎ (F.le (F.of_int p.memory_mib) (used_mib c.metrics) ≡ false)
    pub running : c.paused ≡ ""

  reason_sound :
      (p : Policy F) (c : Controller F) (user : String) (now : ℕ)
      → admission_reason p c user now ≡ ""
      → Admits p c user now
  unfolding admission_reason
  reason_sound p c user now h = ground (
    arith,
    differ "global_concurrency" "" refl,
    differ "user_concurrency" "" refl,
    differ "capture_backlog" "" refl,
    differ "monitor_unavailable" "" refl,
    differ "memory_pressure" "" refl,
  )

  is_monitored :
      (p : Policy F) (c : Controller F) (now : ℕ)
      → (F.lt (F.of_int (pos 0)) p.cpu_percent ≡ false) × (p.memory_mib ≤ℤ pos 0)
        ⊎ (fresh c.metrics now ≡ true)
      → ((F.lt (F.of_int (pos 0)) p.cpu_percent || ltb_ℤ (pos 0) p.memory_mib)
          && not (fresh c.metrics now))
        ≡ false
  is_monitored p c now h = ground arith

  under_memory :
      (p : Policy F) (c : Controller F)
      → (p.memory_mib ≤ℤ pos 0) ⊎ (F.le (F.of_int p.memory_mib) (used_mib c.metrics) ≡ false)
      → (ltb_ℤ (pos 0) p.memory_mib && F.le (F.of_int p.memory_mib) (used_mib c.metrics)) ≡ false
  under_memory p c h = ground arith

  reason_complete :
      (p : Policy F) (c : Controller F) (user : String) (now : ℕ)
      → Admits p c user now
      → admission_reason p c user now ≡ ""
  unfolding admission_reason
  reason_complete p c user now a =
      rw
        (
          under_limit p.global c.active a.below_global,
          under_limit p.per_user (count_of c.users user) a.below_user,
          under_backlog p.global c.processing a.below_backlog,
          is_monitored p c now a.monitored,
          under_memory p c a.below_memory,
        )
        a.running

  pub reason-empty_iff :
      (p : Policy F) (c : Controller F) (user : String) (now : ℕ)
      → (str_eq (admission_reason p c user now) "" ≡ true) ↔ Admits p c user now
  reason-empty_iff p c user now = (
    λ h. reason_sound p c user now ((eq_iff _ "").0 h),
    λ a. (eq_iff _ "").1 (reason_complete p c user now a),
  )

  grant-result :
      (p : Policy F) (s : State F) (user : String) → (grant p s user).1 ≡ granted (length s.leases)
  unfolding grant
  grant-result p s user = refl

  admit-granted_iff :
      (g : Gap F) (p : Policy F) (s : State F) (user : String) (now i : ℕ)
      → enforced p ≡ true
      → ((admit g p s user now).1 ≡ granted i) ↔ Admits p s.ctl user now × (i ≡ length s.leases)
  unfolding admit
  admit-granted_iff g p s user now i e =
      elim (Bool-cases (str_eq (admission_reason p s.ctl user now) "")) [
        | inl free ↦ (
          λ r. ((reason-empty_iff p s.ctl user now).0 free, ground (arith, grant-result p s user)),
          λ a. ground (arith, grant-result p s user),
        )
        | inr held ↦ (
          λ r. absurd (ground arith),
          λ a. absurd (ground (arith, (reason-empty_iff p s.ctl user now).1 a.0)),
        )
      ]

  -- Under an enforcing policy a request is admitted, with the next lease, exactly when its declared
  -- length is within the body limit, no limit on requests or memory is reached, the monitor is
  -- fresh where a threshold needs it, and admission is not paused.
  pub granted_iff :
      (g g' : Gap F) (s : State F) (user : String) (content_length : ℤ) (now i : ℕ)
      → enforced s.ctl.policy ≡ true
      → ((acquire_request g g' s user content_length now).1 ≡ granted i)
        ↔ (too_large s.ctl.policy content_length ≡ false)
          × Admits s.ctl.policy s.ctl user now
          × (i ≡ length s.leases)
  unfolding acquire_request
  granted_iff g g' s user content_length now i e =
      let (to, from) = admit-granted_iff g' s.ctl.policy s user now i e in
      elim (Bool-cases (too_large s.ctl.policy content_length)) [
        | inl large ↦ (λ r. absurd (ground arith), λ a. absurd (ground arith))
        | inr fits ↦
            (λ r. let (a, n) = to (rw fits at r) in (fits, a, n), λ a. rw fits (from (a.1, a.2)))
      ]

  admit-observed :
      (g : Gap F) (p : Policy F) (s : State F) (user : String) (now : ℕ)
      → enforced p ≡ false
      → (i : ℕ) × ((admit g p s user now).1 ≡ granted i)
  unfolding admit grant
  admit-observed g p s user now e =
      elim (Bool-cases (str_eq (admission_reason p s.ctl user now) "")) [
        | inl free ↦ (length s.leases, rw free refl)
        | inr held ↦ (
          length
              (event_with_status g s user (admission_reason p s.ctl user now) (not (enforced p))
                (pos 0) now).leases,
          rw (held, e) refl,
        )
      ]

  -- A policy that does not enforce admits every request.
  pub observed_granted :
      (g g' : Gap F) (s : State F) (user : String) (content_length : ℤ) (now : ℕ)
      → enforced s.ctl.policy ≡ false
      → (i : ℕ) × ((acquire_request g g' s user content_length now).1 ≡ granted i)
  unfolding acquire_request
  observed_granted g g' s user content_length now e =
      elim (Bool-cases (too_large s.ctl.policy content_length)) [
        | inl large ↦ rw (large, e) (admit-observed g' s.ctl.policy _ user g.resumed e)
        | inr fits ↦ rw fits (admit-observed g' s.ctl.policy s user now e)
      ]
