-- ===== src/ResourceControl/Admission/Once.antt =====
-- internal/resourcecontrol/controller.go: each lease gives its slots back once, however often and
-- in whatever order `ModelDone` and `Finish` are called, and every operation keeps the counters.
use cliproxy_portal.Common.Float.{Float64}
use cliproxy_portal.Common.{
  ℕ, String, ◌≡◌, refl, ap, ◌∙◌, inl, inr, Bool, true, false, Option, none, some, arith, str_eq,
  if◌then◌else◌, Bool-cases, Option-cases, get_elem?, count_if-set, All-set, All-get_elem?,
  get_elem?-set, ℤ, pos,
}
use cliproxy_portal.ResourceControl.Policy.{Policy}
use cliproxy_portal.ResourceControl.Controller.{Lease, State, Gap, enforced}
use cliproxy_portal.ResourceControl.Admission.{
  admit, admission_reason, too_large, acquire_request, model_done, model_done_lease, finish,
  finish_lease, record_status, lease_event,
}
use cliproxy_portal.ResourceControl.Admission.Counters.{
  IsCounted, KeepsCounted, is_open, is_unfinished, is_open_of, IsSettled, event-IsCounted,
  grant-IsCounted, model_done-IsCounted,
}

module _ {F : Float64} where
  get_elem?-model_done_lease :
      (s : State F) (i : ℕ) (l : Lease F)
      → get_elem? s.leases i ≡ some l
      → get_elem? (model_done_lease s i (some l)).leases i ≡ some (record l { model_done = true })
  unfolding model_done_lease
  get_elem?-model_done_lease s i l e = elim (Bool-cases l.model_done) [
    | inl done ↦ rw done (e ∙ ground arith)
    | inr held ↦ rw held (get_elem?-set s.leases i l (record l { model_done = true }) e)
  ]

  -- After `ModelDone` the lease is marked.
  get_elem?-model_done :
      (s : State F) (i : ℕ) (l : Lease F)
      → get_elem? s.leases i ≡ some l
      → get_elem? (model_done s i).leases i ≡ some (record l { model_done = true })
  unfolding model_done
  get_elem?-model_done s i l e = rw e (get_elem?-model_done_lease s i l e)

  finish_lease-IsCounted :
      (s : State F) (i : ℕ) (l : Lease F)
      → get_elem? s.leases i ≡ some l
      → l.model_done ≡ true
      → IsCounted s
      → IsCounted (finish_lease s i (some l))
  unfolding finish_lease
  finish_lease-IsCounted s i l e d c = elim (Bool-cases l.finished) [
    | inl done ↦ rw done c
    | inr held ↦ rw held (
        let after = record l { finished = true } in
        record {
          active_eq = c.active_eq ∙ ground (arith, count_if-set is_open s.leases i l after e);
          processing_eq =
              rw c.processing_eq (ground (arith, count_if-set is_unfinished s.leases i l after e));
          users_eq =
              λ u. c.users_eq u ∙ ground (arith, count_if-set (is_open_of u) s.leases i l after e);
          users_tidy = c.users_tidy;
          settled = All-set IsSettled s.leases i after c.settled (inl d);
        })
  ]

  finish-some :
      (s : State F) (i : ℕ) (l : Lease F)
      → get_elem? s.leases i ≡ some l
      → l.finished ≡ false
      → finish s i ≡ finish_lease (model_done s i) i (some (record l { model_done = true }))
  unfolding finish
  finish-some s i l e f =
      rw (e, finish)
        (rw (get_elem?-model_done s i l e) (
          ap
            (λ (b : Bool).
              if b
              then s
              else finish_lease (model_done s i) i (some (record l { model_done = true })))
            f))

  finish_done :
      (s : State F) (i : ℕ) (l : Lease F)
      → get_elem? s.leases i ≡ some l
      → l.finished ≡ true
      → finish s i ≡ s
  unfolding finish
  finish_done s i l e f = rw (e, finish) (rw f)

  finish-none : (s : State F) (i : ℕ) → get_elem? s.leases i ≡ none → finish s i ≡ s
  unfolding finish
  finish-none s i e = rw (e, finish)

  pub finish-IsCounted : (s : State F) (i : ℕ) → IsCounted s → IsCounted (finish s i)
  finish-IsCounted s i c = elim (Option-cases (get_elem? s.leases i)) [
    | inl e ↦ rw (finish-none s i e) c
    | inr (l, e) ↦ elim (Bool-cases l.finished) [
      | inl f ↦ rw (finish_done s i l e f) c
      | inr f ↦ rw (finish-some s i l e f) (
          finish_lease-IsCounted (model_done s i) i _ (get_elem?-model_done s i l e) refl
            (model_done-IsCounted s i c))
    ]
  ]

  admit-IsCounted :
      (g : Gap F) (p : Policy F) (s : State F) (user : String) (now : ℕ)
      → KeepsCounted g
      → IsCounted s
      → IsCounted (admit g p s user now).0
  unfolding admit
  admit-IsCounted g p s user now k c =
      elim (Bool-cases (str_eq (admission_reason p s.ctl user now) "")) [
        | inl free ↦ rw free (grant-IsCounted p s user c)
        | inr held ↦ rw held (elim (Bool-cases (enforced p)) [
          | inl e ↦ rw e (event-IsCounted g s user _ _ (pos 0) now k c)
          | inr e ↦ rw e (grant-IsCounted p _ user (event-IsCounted g s user _ _ (pos 0) now k c))
        ])
      ]

  pub acquire_request-IsCounted :
      (g g' : Gap F) (s : State F) (user : String) (content_length : ℤ) (now : ℕ)
      → KeepsCounted g
      → KeepsCounted g'
      → IsCounted s
      → IsCounted (acquire_request g g' s user content_length now).0
  unfolding acquire_request
  acquire_request-IsCounted g g' s user content_length now k k' c =
      elim (Bool-cases (too_large s.ctl.policy content_length)) [
        | inl large ↦ rw large (elim (Bool-cases (enforced s.ctl.policy)) [
          | inl e ↦ rw e (event-IsCounted g s user _ _ (pos 0) now k c)
          | inr e ↦ rw e (
              admit-IsCounted g' s.ctl.policy _ user g.resumed k'
                (event-IsCounted g s user _ _ (pos 0) now k c))
        ])
        | inr fits ↦ rw fits (admit-IsCounted g' s.ctl.policy s user now k' c)
      ]

  lease_event-IsCounted :
      (g : Gap F) (s : State F) (o : Option (Lease F)) (reason : String) (status : ℤ) (now : ℕ)
      → KeepsCounted g
      → IsCounted s
      → IsCounted (lease_event g s o reason status now)
  unfolding lease_event
  lease_event-IsCounted g s none reason status now k c = c
  lease_event-IsCounted g s (some l) reason status now k c =
      event-IsCounted g s l.user reason _ status now k c

  pub record_status-IsCounted :
      (g : Gap F) (s : State F) (i : ℕ) (reason : String) (status : ℤ) (now : ℕ)
      → KeepsCounted g
      → IsCounted s
      → IsCounted (record_status g s i reason status now)
  unfolding record_status
  record_status-IsCounted g s i reason status now =
      lease_event-IsCounted g s (get_elem? s.leases i) reason status now

  model_done_again :
      (s : State F) (i : ℕ) (l : Lease F)
      → get_elem? s.leases i ≡ some l
      → l.model_done ≡ true
      → model_done s i ≡ s
  unfolding model_done model_done_lease
  model_done_again s i l e d = rw (e, model_done_lease) (rw d)

  get_elem?-finish_lease :
      (s : State F) (i : ℕ) (l : Lease F)
      → get_elem? s.leases i ≡ some l
      → get_elem? (finish_lease s i (some l)).leases i ≡ some (record l { finished = true })
  unfolding finish_lease
  get_elem?-finish_lease s i l e = elim (Bool-cases l.finished) [
    | inl done ↦ rw done (e ∙ ground arith)
    | inr held ↦ rw held (get_elem?-set s.leases i l (record l { finished = true }) e)
  ]

  model_done_none : (s : State F) (i : ℕ) → get_elem? s.leases i ≡ none → model_done s i ≡ s
  unfolding model_done model_done_lease
  model_done_none s i e = rw (e, model_done_lease)

  -- Where the counters are right, `Finish` ends a lease for good: neither a second `Finish` nor a
  -- later `ModelDone` of it changes the state.
  pub finish_twice :
      (s : State F) (i : ℕ)
      → IsCounted s
      → (finish (finish s i) i ≡ finish s i) × (model_done (finish s i) i ≡ finish s i)
  finish_twice s i c = elim (Option-cases (get_elem? s.leases i)) [
    | inl e ↦ rw (finish-none s i e) (finish-none s i e, model_done_none s i e)
    | inr (l, e) ↦ elim (Bool-cases l.finished) [
      | inl f ↦ rw (finish_done s i l e f) (
        finish_done s i l e f,
        model_done_again s i l e (ground (arith, All-get_elem? IsSettled s.leases i l c.settled e)),
      )
      | inr f ↦ rw (finish-some s i l e f) (
          let at_end =
            get_elem?-finish_lease (model_done s i) i (record l { model_done = true })
              (get_elem?-model_done s i l e) in
          (finish_done _ i _ at_end refl, model_done_again _ i _ at_end refl))
    ]
  ]

  -- Where the counters are right, a lease is finished and done with its model after `Finish`.
  pub finish-closed :
      (s : State F) (i : ℕ) (l : Lease F)
      → get_elem? s.leases i ≡ some l
      → IsCounted s
      → (l' : Lease F) × (get_elem? (finish s i).leases i ≡ some l')
        × (l'.finished ≡ true)
        × (l'.model_done ≡ true)
  finish-closed s i l e c = elim (Bool-cases l.finished) [
    | inl f ↦
        rw (finish_done s i l e f)
          (l, e, f, ground (arith, All-get_elem? IsSettled s.leases i l c.settled e))
    | inr f ↦
        rw (finish-some s i l e f) (
          _,
          get_elem?-finish_lease (model_done s i) i _ (get_elem?-model_done s i l e),
          refl,
          refl,
        )
  ]
