-- ===== src/ResourceControl/Admission.antt =====
-- internal/resourcecontrol/controller.go: `AcquireRequest`, and the leases that it hands out.
pub mod Decision
pub mod Counters
pub mod Once
use cliproxy_portal.Common.Float.{Float64}
use cliproxy_portal.Common.{
  ℕ, String, Bool, true, false, not, ◌&&◌, ◌||◌, Option, none, some, List, [], ◌∷◌, ◌++◌, str_eq,
  if◌then◌else◌, length, get_elem?, set, ℤ, ◌+ℤ◌, ◌-ℤ◌, ltb_ℤ, leb_ℤ, is_zero, ◌*ℕ◌, pos, negsuc,
  lookup, delete, insert,
}
use cliproxy_portal.ResourceControl.Policy.{Policy, mib}
use cliproxy_portal.ResourceControl.Metrics.{fresh, used_mib}
use cliproxy_portal.ResourceControl.Controller.{
  Controller, Lease, State, Gap, enforced, event_with_status,
}

-- A granted slot is known by its lease's place; a refusal has its reason.
pub data Admission : Type 0 where
  granted : ℕ → Admission
  refused : String → Admission

-- Reading a missing user gives 0.
abbrev pub count_of : List (String × ℤ) → String → ℤ
count_of users user = elim (lookup user users) [ none ↦ pos 0 | some n ↦ n ]

-- `users[user]--`, and an entry that reaches 0 is deleted.
unfoldable pub release_user : String → List (String × ℤ) → List (String × ℤ)
release_user user users =
    let left = count_of users user -ℤ pos 1 in
    if is_zero left then delete user users else insert user left users

module _ {F : Float64} where
  -- The chain of tests; "" means that nothing speaks against the request.
  unfoldable pub admission_reason : Policy F → Controller F → String → ℕ → String
  admission_reason p c user now =
      if ltb_ℤ (pos 0) p.global && leb_ℤ p.global c.active
      then "global_concurrency"
      else if ltb_ℤ (pos 0) p.per_user && leb_ℤ p.per_user (count_of c.users user)
      then "user_concurrency"
      else if ltb_ℤ (pos 0) p.global && leb_ℤ (p.global +ℤ pos 4) c.processing
      then "capture_backlog"
      else if (F.lt (F.of_int (pos 0)) p.cpu_percent || ltb_ℤ (pos 0) p.memory_mib)
          && not (fresh c.metrics now)
      then "monitor_unavailable"
      else if ltb_ℤ (pos 0) p.memory_mib && F.le (F.of_int p.memory_mib) (used_mib c.metrics)
      then "memory_pressure"
      else c.paused

  unfoldable pub grant : Policy F → State F → String → State F × Admission
  grant p s user = (
    record {
      ctl = record c {
        active = c.active +ℤ pos 1;
        processing = c.processing +ℤ pos 1;
        users = insert user (count_of c.users user +ℤ pos 1) c.users;
      };
      leases =
          s.leases ++ record { user = user; policy = p; model_done = false; finished = false } ∷ [];
    },
    granted (length s.leases),
  )
    where
      open s use {ctl as c}

  -- The second half of `AcquireRequest`, from the chain of tests on.
  unfoldable pub admit : Gap F → Policy F → State F → String → ℕ → State F × Admission
  admit g p s user now =
      let reason = admission_reason p s.ctl user now in
      if str_eq reason ""
      then grant p s user
      else let s' = event_with_status g s user reason (not (enforced p)) (pos 0) now in
        if enforced p then (s', refused reason) else grant p s' user

  abbrev pub too_large : Policy F → ℤ → Bool
  too_large p content_length = ltb_ℤ (pos 0) p.body_mib && ltb_ℤ (p.body_mib *ℕ mib) content_length

  -- `AcquireRequest` under the policy that it read first. `g` stands for the wait of the first event
  -- and `g'` for that of the second.
  unfoldable pub request_under :
      Gap F → Gap F → Policy F → State F → String → ℤ → ℕ → State F × Admission
  request_under g g' p s user content_length now =
      if too_large p content_length
      then (let s' =
            event_with_status g s user "request_too_large" (not (enforced p)) (pos 0) now in
          if enforced p then (s', refused "request_too_large") else admit g' p s' user g.resumed)
      else admit g' p s user now

  unfoldable pub acquire_request : Gap F → Gap F → State F → String → ℤ → ℕ → State F × Admission
  unfolding request_under
  acquire_request g g' s user content_length now =
      request_under g g' s.ctl.policy s user content_length now

  unfoldable pub acquire : Gap F → Gap F → State F → String → ℕ → State F × Admission
  acquire g g' s user now = acquire_request g g' s user (negsuc 0) now

  unfoldable pub model_done_lease : State F → ℕ → Option (Lease F) → State F
  model_done_lease s i none = s
  model_done_lease s i (some l) = if l.model_done then s else record {
    ctl = record c { active = c.active -ℤ pos 1; users = release_user l.user c.users };
    leases = set s.leases i (record l { model_done = true });
  }
    where
      open s use {ctl as c}

  unfoldable pub model_done : State F → ℕ → State F
  model_done s i = model_done_lease s i (get_elem? s.leases i)

  unfoldable pub finish_lease : State F → ℕ → Option (Lease F) → State F
  finish_lease s i none = s
  finish_lease s i (some l) = if l.finished then s else record {
    ctl = record c { processing = c.processing -ℤ pos 1 };
    leases = set s.leases i (record l { finished = true });
  }
    where
      open s use {ctl as c}

  -- `Finish` runs `ModelDone` first, each behind its own `sync.Once`.
  unfoldable pub finish : State F → ℕ → State F
  finish s i = elim (get_elem? s.leases i) [
    | none ↦ s
    | some l ↦
        if l.finished
        then s
        else let s' = model_done s i in finish_lease s' i (get_elem? s'.leases i)
  ]

  unfoldable pub lease_event : Gap F → State F → Option (Lease F) → String → ℤ → ℕ → State F
  lease_event g s none reason status now = s
  lease_event g s (some l) reason status now =
      event_with_status g s l.user reason (not (enforced l.policy)) status now

  -- A lease records under the policy that admitted it.
  unfoldable pub record_status : Gap F → State F → ℕ → String → ℤ → ℕ → State F
  record_status g s i reason status now = lease_event g s (get_elem? s.leases i) reason status now
