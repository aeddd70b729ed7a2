-- ===== src/ResourceControl/Interleaving/Capacity.antt =====
-- internal/resourcecontrol/controller.go: the limits of an enforced policy hold at every moment.
use cliproxy_portal.Common.Float.{Float64}
use cliproxy_portal.Common.{
  ℕ, String, ◌≡◌, refl, sym, ◌∙◌, subst, ◌⊎◌, inl, inr, Bool, true, false, Option, none, some,
  arith, str_eq, Bool-cases, Option-cases, get_elem?, ℤ, ◌+ℤ◌, ◌-ℤ◌, ◌≤ℤ◌, pos, lookup,
}
use cliproxy_portal.ResourceControl.Policy.{Policy}
use cliproxy_portal.ResourceControl.Metrics.{Metrics}
use cliproxy_portal.ResourceControl.Controller.{
  State, Gap, Lease, event_with_status, record_event, new_controller, enforced,
}
use cliproxy_portal.ResourceControl.Monitor.{update_metrics}
use cliproxy_portal.ResourceControl.Admission.{
  acquire_request, admit, grant, model_done, model_done_lease, finish, finish_lease, record_status,
  lease_event, count_of, too_large, admission_reason, request_under,
}
use cliproxy_portal.ResourceControl.Admission.Counters.{count_of-insert, count_of-release_user}
use cliproxy_portal.ResourceControl.Admission.Decision.{Admits, reason-empty_iff}
use cliproxy_portal.ResourceControl.Interleaving.{
  Call, acquires, dones, finishes, samples, configures, records, reports, Calls, nil, cons, gap,
  run_call, run_calls, init,
}

-- No limit, or one that is kept.
abbrev pub Within : ℤ → ℤ → Type 0
Within n limit = (limit ≤ℤ pos 0) ⊎ (n ≤ℤ limit)

-- One request less keeps every limit.
less : (n limit : ℤ) → Within n limit → Within (n -ℤ pos 1) limit
less n limit h = ground arith

less_backlog :
    (global n : ℤ)
    → (global ≤ℤ pos 0) ⊎ (n ≤ℤ global +ℤ pos 4)
    → (global ≤ℤ pos 0) ⊎ (n -ℤ pos 1 ≤ℤ global +ℤ pos 4)
less_backlog global n h = ground arith

module _ {F : Float64} where
  pub record IsCapped (p : Policy F) (s : State F) : Type 0 where
    pub policy_eq : s.ctl.policy ≡ p
    pub global_cap : Within s.ctl.active p.global
    pub user_cap : (user : String) → Within (count_of s.ctl.users user) p.per_user
    pub backlog_cap : (p.global ≤ℤ pos 0) ⊎ (s.ctl.processing ≤ℤ p.global +ℤ pos 4)

  record KeepsCapped (p : Policy F) (g : Gap F) : Type 0 where
    pub before : (s : State F) → IsCapped p s → IsCapped p (g.before s)
    pub after : (s : State F) → IsCapped p s → IsCapped p (g.after s)

  recap :
      (p : Policy F) (s t : State F)
      → t.ctl.policy ≡ s.ctl.policy
      → t.ctl.active ≡ s.ctl.active
      → t.ctl.processing ≡ s.ctl.processing
      → t.ctl.users ≡ s.ctl.users
      → IsCapped p s
      → IsCapped p t
  recap p s t q a b u c = record {
    policy_eq = q ∙ c.policy_eq;
    global_cap = rw a c.global_cap;
    user_cap = λ user. rw u (c.user_cap user);
    backlog_cap = rw b c.backlog_cap;
  }

  event-IsCapped :
      (p : Policy F) (g : Gap F) (s : State F) (user reason : String) (seen : Bool) (status : ℤ)
      (now : ℕ)
      → KeepsCapped p g
      → IsCapped p s
      → IsCapped p (event_with_status g s user reason seen status now)
  unfolding event_with_status
  event-IsCapped p g s user reason true status now k c =
      k.after _ (recap p _ _ refl refl refl refl (k.before _ (recap p s _ refl refl refl refl c)))
  event-IsCapped p g s user reason false status now k c =
      k.after _ (recap p _ _ refl refl refl refl (k.before _ (recap p s _ refl refl refl refl c)))

  grant-IsCapped :
      (p : Policy F) (s : State F) (user : String) (now : ℕ)
      → Admits p s.ctl user now
      → IsCapped p s
      → IsCapped p (grant p s user).0
  unfolding grant
  grant-IsCapped p s user now a c = record {
    policy_eq = c.policy_eq;
    global_cap = a.below_global;
    user_cap = λ u.
        rw (count_of-insert s.ctl.users user u (count_of s.ctl.users user +ℤ pos 1))
          (elim (Bool-cases (str_eq user u)) [
            | inl same ↦ rw same a.below_user
            | inr other ↦ rw other (c.user_cap u)
          ]);
    backlog_cap = a.below_backlog;
  }

  admit-IsCapped :
      (p : Policy F) (g : Gap F) (s : State F) (user : String) (now : ℕ)
      → enforced p ≡ true
      → KeepsCapped p g
      → IsCapped p s
      → IsCapped p (admit g p s user now).0
  unfolding admit
  admit-IsCapped p g s user now e k c =
      elim (Bool-cases (str_eq (admission_reason p s.ctl user now) "")) [
        | inl free ↦
            rw free (grant-IsCapped p s user now ((reason-empty_iff p s.ctl user now).0 free) c)
        | inr held ↦ rw (held, e) (event-IsCapped p g s user _ _ (pos 0) now k c)
      ]

  request_under-IsCapped :
      (p : Policy F) (g g' : Gap F) (s : State F) (user : String) (content_length : ℤ) (now : ℕ)
      → enforced p ≡ true
      → KeepsCapped p g
      → KeepsCapped p g'
      → IsCapped p s
      → IsCapped p (request_under g g' p s user content_length now).0
  unfolding request_under
  request_under-IsCapped p g g' s user content_length now e k k' c =
      elim (Bool-cases (too_large p content_length)) [
        | inl large ↦ rw (large, e) (event-IsCapped p g s user _ _ (pos 0) now k c)
        | inr fits ↦ rw fits (admit-IsCapped p g' s user now e k' c)
      ]

  acquire_request-IsCapped :
      (p : Policy F) (g g' : Gap F) (s : State F) (user : String) (content_length : ℤ) (now : ℕ)
      → enforced p ≡ true
      → KeepsCapped p g
      → KeepsCapped p g'
      → IsCapped p s
      → IsCapped p (acquire_request g g' s user content_length now).0
  unfolding acquire_request
  acquire_request-IsCapped p g g' s user content_length now e k k' c =
      subst (λ q. IsCapped p (request_under g g' q s user content_length now).0) (sym c.policy_eq)
        (request_under-IsCapped p g g' s user content_length now e k k' c)

  model_done_lease-IsCapped :
      (p : Policy F) (s : State F) (i : ℕ) (o : Option (Lease F))
      → IsCapped p s
      → IsCapped p (model_done_lease s i o)
  unfolding model_done_lease
  model_done_lease-IsCapped p s i none c = c
  model_done_lease-IsCapped p s i (some l) c = elim (Bool-cases l.model_done) [
    | inl done ↦ rw done c
    | inr held ↦ rw held (record {
      policy_eq = c.policy_eq;
      global_cap = less _ _ c.global_cap;
      user_cap = λ u.
          rw (count_of-release_user s.ctl.users l.user u) (elim (Bool-cases (str_eq l.user u)) [
            | inl same ↦ rw same (less _ _ (c.user_cap l.user))
            | inr other ↦ rw other (c.user_cap u)
          ]);
      backlog_cap = c.backlog_cap;
    })
  ]

  model_done-IsCapped :
      (p : Policy F) (s : State F) (i : ℕ) → IsCapped p s → IsCapped p (model_done s i)
  unfolding model_done
  model_done-IsCapped p s i c = model_done_lease-IsCapped p s i (get_elem? s.leases i) c

  finish_lease-IsCapped :
      (p : Policy F) (s : State F) (i : ℕ) (o : Option (Lease F))
      → IsCapped p s
      → IsCapped p (finish_lease s i o)
  unfolding finish_lease
  finish_lease-IsCapped p s i none c = c
  finish_lease-IsCapped p s i (some l) c = elim (Bool-cases l.finished) [
    | inl done ↦ rw done c
    | inr held ↦ rw held (record {
      policy_eq = c.policy_eq;
      global_cap = c.global_cap;
      user_cap = c.user_cap;
      backlog_cap = less_backlog p.global s.ctl.processing c.backlog_cap;
    })
  ]

  finish-IsCapped : (p : Policy F) (s : State F) (i : ℕ) → IsCapped p s → IsCapped p (finish s i)
  unfolding finish
  finish-IsCapped p s i c = elim (Option-cases (get_elem? s.leases i)) [
    | inl e ↦ rw (e, finish) c
    | inr (l, e) ↦
        rw (e, finish)
          (elim (Bool-cases l.finished) [
            | inl f ↦ rw f c
            | inr f ↦
                rw f (finish_lease-IsCapped p (model_done s i) i _ (model_done-IsCapped p s i c))
          ])
  ]

  sample-IsCapped :
      (p : Policy F) (s : State F) (m : Metrics F) (now : ℕ)
      → IsCapped p s
      → IsCapped p (record s { ctl = update_metrics s.ctl m now })
  unfolding update_metrics
  sample-IsCapped p s m now =
      recap p s _ (ground arith) (ground arith) (ground arith) (ground arith)

  lease_event-IsCapped :
      (p : Policy F) (g : Gap F) (s : State F) (o : Option (Lease F)) (reason : String) (status : ℤ)
      (now : ℕ)
      → KeepsCapped p g
      → IsCapped p s
      → IsCapped p (lease_event g s o reason status now)
  unfolding lease_event
  lease_event-IsCapped p g s none reason status now k c = c
  lease_event-IsCapped p g s (some l) reason status now k c =
      event-IsCapped p g s l.user reason _ status now k c

-- No call of the schedule, nor of what runs during one, changes the policy.
unfoldable mutual
  pub KeepsPolicy : {F : Float64} → Calls F → Type 0
  KeepsPolicy nil = Unit {0}
  KeepsPolicy (cons c cs) = KeepsPolicyCall c × KeepsPolicy cs

  pub KeepsPolicyCall : {F : Float64} → Call F → Type 0
  KeepsPolicyCall (acquires user n now t t' b a b' a') =
      KeepsPolicy b × KeepsPolicy a × KeepsPolicy b' × KeepsPolicy a'
  KeepsPolicyCall (dones i) = Unit {0}
  KeepsPolicyCall (finishes i) = Unit {0}
  KeepsPolicyCall (samples m now) = Unit {0}
  KeepsPolicyCall (configures p) = ⊥
  KeepsPolicyCall (records user reason now b a) = KeepsPolicy b × KeepsPolicy a
  KeepsPolicyCall (reports i reason status now b a) = KeepsPolicy b × KeepsPolicy a

mutual
  unfolding run_call run_calls record_event record_status KeepsPolicy KeepsPolicyCall

  run_call-IsCapped :
      {F : Float64} (p : Policy F) (e : enforced p ≡ true) (c : Call F) (s : State F)
      → KeepsPolicyCall c
      → IsCapped p s
      → IsCapped p (run_call c s)
  run_call-IsCapped p e (acquires user n now t t' b a b' a') s f k =
      acquire_request-IsCapped p _ _ s user n now e
        (record {
          before = λ s. run_calls-IsCapped p e b s f.0;
          after = λ s. run_calls-IsCapped p e a s f.1;
        })
        (record {
          before = λ s. run_calls-IsCapped p e b' s f.2;
          after = λ s. run_calls-IsCapped p e a' s f.3;
        })
        k
  run_call-IsCapped p e (dones i) s f k = model_done-IsCapped p s i k
  run_call-IsCapped p e (finishes i) s f k = finish-IsCapped p s i k
  run_call-IsCapped p e (samples m now) s f k = sample-IsCapped p s m now k
  run_call-IsCapped p e (configures q) s f k = absurd f
  run_call-IsCapped p e (records user reason now b a) s f k =
      event-IsCapped p (gap (run_calls b) (run_calls a) now) s user reason _ (pos 0) now
        (record {
          before = λ s. run_calls-IsCapped p e b s f.0;
          after = λ s. run_calls-IsCapped p e a s f.1;
        })
        k
  run_call-IsCapped p e (reports i reason status now b a) s f k =
      lease_event-IsCapped p (gap (run_calls b) (run_calls a) now) s (get_elem? s.leases i) reason
        status now
        (record {
          before = λ s. run_calls-IsCapped p e b s f.0;
          after = λ s. run_calls-IsCapped p e a s f.1;
        })
        k

  run_calls-IsCapped :
      {F : Float64} (p : Policy F) (e : enforced p ≡ true) (cs : Calls F) (s : State F)
      → KeepsPolicy cs
      → IsCapped p s
      → IsCapped p (run_calls cs s)
  run_calls-IsCapped p e nil s f k = k
  run_calls-IsCapped p e (cons c cs) s f k =
      run_calls-IsCapped p e cs (run_call c s) f.1 (run_call-IsCapped p e c s f.0 k)

init-IsCapped :
    {F : Float64} (p : Policy F) → pos 0 ≤ℤ p.global → pos 0 ≤ℤ p.per_user → IsCapped p (init p)
unfolding init new_controller lookup
init-IsCapped p g u = record {
  policy_eq = refl;
  global_cap = inr g;
  user_cap = λ user. inr u;
  backlog_cap = inr (ground arith);
}

-- Under an enforcing policy whose limits are not negative, and while the policy is not changed,
-- no interleaving of calls from a new controller on exceeds a limit: where the global limit is
-- positive, the active requests are at most that many and those in processing at most four more;
-- where the limit per user is positive, each user's active requests are at most that many.
pub run_calls-init-IsCapped :
    {F : Float64} (p : Policy F) (cs : Calls F)
    → enforced p ≡ true
    → pos 0 ≤ℤ p.global
    → pos 0 ≤ℤ p.per_user
    → KeepsPolicy cs
    → IsCapped p (run_calls cs (init p))
run_calls-init-IsCapped p cs e g u k = run_calls-IsCapped p e cs (init p) k (init-IsCapped p g u)
