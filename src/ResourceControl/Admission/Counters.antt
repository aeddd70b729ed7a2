-- ===== src/ResourceControl/Admission/Counters.antt =====
-- internal/resourcecontrol/controller.go: the counters are the numbers of open leases.
use cliproxy_portal.Common.Float.{Float64}
use cliproxy_portal.Common.{
  ℕ, suc, ◌+◌, String, ◌≡◌, refl, sym, ap, ◌∙◌, ◌≢◌, ◌⊎◌, inl, inr, Bool, true, false, not, ◌&&◌,
  Option, none, some, List, arith, str_eq, eq_iff, if◌then◌else◌, Bool-cases, one_if, get_elem?,
  set, All, count_if, count_if-append, count_if-set, All-append, All-set, ℤ, ◌+ℤ◌, ◌-ℤ◌, is_zero,
  pos, lookup, delete, insert, lookup-delete, lookup-insert,
}
use cliproxy_portal.ResourceControl.Policy.{Policy}
use cliproxy_portal.ResourceControl.Controller.{Lease, State, Gap, event_with_status}
use cliproxy_portal.ResourceControl.Admission.{
  count_of, grant, model_done, release_user, model_done_lease,
}

pub count_of-insert :
    (users : List (String × ℤ)) (k j : String) (v : ℤ)
    → count_of (insert k v users) j ≡ (if str_eq k j then v else count_of users j)
count_of-insert users k j v = rw (lookup-insert k j v users, count_of) (ground arith)

count_of-delete :
    (users : List (String × ℤ)) (k j : String)
    → count_of (delete k users) j ≡ (if str_eq k j then pos 0 else count_of users j)
count_of-delete users k j = rw (lookup-delete k j users, count_of) (ground arith)

is_zero→eq : (a : ℤ) → is_zero a ≡ true → a ≡ pos 0
is_zero→eq a h = ground arith

-- Whatever is stored, reading the map after a release sees one request less of that user.
pub count_of-release_user :
    (users : List (String × ℤ)) (k j : String)
    → count_of (release_user k users) j
      ≡ (if str_eq k j then count_of users k -ℤ pos 1 else count_of users j)
unfolding release_user
count_of-release_user users k j = elim (Bool-cases (is_zero (count_of users k -ℤ pos 1))) [
  | inl z ↦
      rw (z, count_of-delete users k j)
        (ap (λ (v : ℤ). if str_eq k j then v else count_of users j) (sym (is_zero→eq _ z)))
  | inr n ↦ rw (n, count_of-insert users k j (count_of users k -ℤ pos 1)) refl
]

release_user_tidy :
    (users : List (String × ℤ)) (k j : String)
    → lookup j users ≢ some (pos 0)
    → lookup j (release_user k users) ≢ some (pos 0)
unfolding release_user
release_user_tidy users k j h = elim (Bool-cases (is_zero (count_of users k -ℤ pos 1))) [
  | inl z ↦ rw (z, lookup-delete k j users) (ground arith)
  | inr n ↦ rw (n, lookup-insert k j (count_of users k -ℤ pos 1) users) (ground arith)
]

module _ {F : Float64} where
  abbrev pub is_open : Lease F → Bool
  is_open l = not l.model_done

  abbrev pub is_unfinished : Lease F → Bool
  is_unfinished l = not l.finished

  abbrev pub is_open_of : String → Lease F → Bool
  is_open_of user l = not l.model_done && str_eq l.user user

  -- A finished lease is done with its model.
  abbrev pub IsSettled : Lease F → Type 0
  IsSettled l = (l.model_done ≡ true) ⊎ (l.finished ≡ false)

  -- What the counters stand for, and that the map of users keeps no entry that reads 0.
  pub record IsCounted (s : State F) : Type 0 where
    pub active_eq : s.ctl.active ≡ pos (count_if is_open s.leases)
    pub processing_eq : s.ctl.processing ≡ pos (count_if is_unfinished s.leases)
    pub users_eq :
        (user : String) → count_of s.ctl.users user ≡ pos (count_if (is_open_of user) s.leases)
    pub users_tidy : (user : String) → lookup user s.ctl.users ≢ some (pos 0)
    pub settled : All IsSettled s.leases

  -- A wait in which the other goroutines keep the counters right.
  pub record KeepsCounted (g : Gap F) : Type 0 where
    pub before : (s : State F) → IsCounted s → IsCounted (g.before s)
    pub after : (s : State F) → IsCounted s → IsCounted (g.after s)

  -- A step that leaves the leases and the three counters alone keeps them right.
  pub recount :
      (s t : State F)
      → t.ctl.active ≡ s.ctl.active
      → t.ctl.processing ≡ s.ctl.processing
      → t.ctl.users ≡ s.ctl.users
      → t.leases ≡ s.leases
      → IsCounted s
      → IsCounted t
  recount s t a p u l c = record {
    active_eq = rw (a, l) c.active_eq;
    processing_eq = rw (p, l) c.processing_eq;
    users_eq = λ user. rw (u, l) (c.users_eq user);
    users_tidy = λ user. rw u (c.users_tidy user);
    settled = rw l c.settled;
  }

  pub event-IsCounted :
      (g : Gap F) (s : State F) (user reason : String) (seen : Bool) (status : ℤ) (now : ℕ)
      → KeepsCounted g
      → IsCounted s
      → IsCounted (event_with_status g s user reason seen status now)
  unfolding event_with_status
  event-IsCounted g s user reason true status now k c =
      k.after _ (recount _ _ refl refl refl refl (k.before _ (recount s _ refl refl refl refl c)))
  event-IsCounted g s user reason false status now k c =
      k.after _ (recount _ _ refl refl refl refl (k.before _ (recount s _ refl refl refl refl c)))

  grant-users :
      (s : State F) (user u : String)
      → IsCounted s
      → count_of (insert user (count_of s.ctl.users user +ℤ pos 1) s.ctl.users) u
        ≡ pos (count_if (is_open_of u) s.leases + one_if (str_eq user u))
  grant-users s user u c =
      rw (count_of-insert s.ctl.users user u (count_of s.ctl.users user +ℤ pos 1))
        (elim (Bool-cases (str_eq user u)) [
          | inl same ↦ rw (same, (eq_iff user u).0 same, c.users_eq u) (ground arith)
          | inr other ↦ rw (other, c.users_eq u) (ground arith)
        ])

  grant_tidy :
      (s : State F) (user u : String)
      → IsCounted s
      → lookup u (insert user (count_of s.ctl.users user +ℤ pos 1) s.ctl.users) ≢ some (pos 0)
  grant_tidy s user u c =
      rw (lookup-insert user u (count_of s.ctl.users user +ℤ pos 1) s.ctl.users, c.users_eq user)
        (elim (Bool-cases (str_eq user u)) [
          | inl same ↦ rw same (λ e. ground arith)
          | inr other ↦ rw other (c.users_tidy u)
        ])

  pub grant-IsCounted :
      (p : Policy F) (s : State F) (user : String) → IsCounted s → IsCounted (grant p s user).0
  unfolding grant
  grant-IsCounted p s user c = record {
    active_eq = rw (count_if-append is_open s.leases, c.active_eq) (ground arith);
    processing_eq = rw (count_if-append is_unfinished s.leases, c.processing_eq) (ground arith);
    users_eq = λ u. rw (count_if-append (is_open_of u) s.leases) (grant-users s user u c);
    users_tidy = λ u. grant_tidy s user u c;
    settled = All-append IsSettled s.leases _ c.settled (inr refl);
  }

  module _ (s : State F) (i : ℕ) (l : Lease F) (here : get_elem? s.leases i ≡ some l)
      (open_lease : l.model_done ≡ false) (c : IsCounted s) where
    fewer_open :
        count_if is_open s.leases
        ≡ suc (count_if is_open (set s.leases i (record l { model_done = true })))
    fewer_open =
        ground (arith, count_if-set is_open s.leases i l (record l { model_done = true }) here)

    fewer_of :
        (u : String)
        → count_if (is_open_of u) s.leases
          ≡ one_if (str_eq l.user u)
            + count_if (is_open_of u) (set s.leases i (record l { model_done = true }))
    fewer_of u =
        ground
          (arith, count_if-set (is_open_of u) s.leases i l (record l { model_done = true }) here)

    same_unfinished :
        count_if is_unfinished (set s.leases i (record l { model_done = true }))
        ≡ count_if is_unfinished s.leases
    same_unfinished =
        omega (arith, count_if-set is_unfinished s.leases i l (record l { model_done = true }) here)

    done-users :
        (u : String)
        → count_of (release_user l.user s.ctl.users) u
          ≡ pos (count_if (is_open_of u) (set s.leases i (record l { model_done = true })))
    done-users u =
        rw (count_of-release_user s.ctl.users l.user u) (elim (Bool-cases (str_eq l.user u)) [
          | inl same ↦
              rw (same, ap (count_of s.ctl.users) ((eq_iff l.user u).0 same) ∙ c.users_eq u)
                (ground (arith, fewer_of u))
          | inr other ↦ rw (other, c.users_eq u) (ground (arith, fewer_of u))
        ])

  model_done_lease-IsCounted :
      (s : State F) (i : ℕ) (o : Option (Lease F))
      → get_elem? s.leases i ≡ o
      → IsCounted s
      → IsCounted (model_done_lease s i o)
  unfolding model_done_lease
  model_done_lease-IsCounted s i none e c = c
  model_done_lease-IsCounted s i (some l) e c = elim (Bool-cases l.model_done) [
    | inl done ↦ rw done c
    | inr held ↦ rw held (record {
      active_eq = rw c.active_eq (ground (arith, fewer_open s i l e held c));
      processing_eq = rw (c.processing_eq, same_unfinished s i l e held c) refl;
      users_eq = done-users s i l e held c;
      users_tidy = λ u. release_user_tidy s.ctl.users l.user u (c.users_tidy u);
      settled = All-set IsSettled s.leases i _ c.settled (inl refl);
    })
  ]

  pub model_done-IsCounted : (s : State F) (i : ℕ) → IsCounted s → IsCounted (model_done s i)
  unfolding model_done
  model_done-IsCounted s i c = model_done_lease-IsCounted s i (get_elem? s.leases i) refl c
