-- ===== src/ResourceControl/History/Order.antt =====
-- internal/resourcecontrol/history.go: the points are in order of their times, and what `History`
-- shows are the valid points of the ring.
use native.Mathlib.Nat.{add-zero}
use cliproxy_portal.Common.Float.{Float64}
use cliproxy_portal.Common.{
  ℕ, zero, suc, ◌+◌, ◌-◌, ◌≤◌, ◌<◌, ◌≡◌, refl, sym, ap, ◌∙◌, subst, ◌≢◌, inl, inr, true, List, [],
  ◌∷◌, arith, if◌then◌else◌, Bool-cases, length, drop, All, pos,
}
use cliproxy_portal.ResourceControl.History.{
  HistoryPoint, HistoryBuffer, oldest, add, capacity, valid_history_point, collect, history,
  restore_history, truncate, window,
}
use cliproxy_portal.ResourceControl.History.Segments.{IsRing, add-IsRing, segment, contents}
use cliproxy_portal.ResourceControl.History.Ring.{contents-add, insert_last, trim}

next_start : (start i : ℕ) → suc (start + i) ≡ start + suc i
next_start start i = omega arith

module _ {F : Float64} where
  -- Every time lies after the one before it.
  abbrev pub After : ℕ → List (HistoryPoint F) → Type 0
  After t [] = Unit {0}
  After t (p ∷ ps) = (t < p.at) × After p.at ps

  abbrev pub IsAscending : List (HistoryPoint F) → Type 0
  IsAscending [] = Unit {0}
  IsAscending (p ∷ ps) = After p.at ps

  After-IsAscending : (t : ℕ) (ps : List (HistoryPoint F)) → After t ps → IsAscending ps
  After-IsAscending t [] h = tt
  After-IsAscending t (p ∷ ps) h = h.1

  After-insert_last :
      (t : ℕ) (ps : List (HistoryPoint F)) (p : HistoryPoint F)
      → After t ps
      → (ps ≡ [] → t < p.at)
      → After t (insert_last ps p)
  unfolding insert_last
  After-insert_last t [] p h k = (k refl, tt)
  After-insert_last t (x ∷ []) p h k = ground arith
  After-insert_last t (x ∷ y ∷ ys) p h k = (h.0, After-insert_last x.at (y ∷ ys) p h.1 (λ e. cc))

  insert_last-IsAscending :
      (ps : List (HistoryPoint F)) (p : HistoryPoint F)
      → IsAscending ps
      → IsAscending (insert_last ps p)
  unfolding insert_last
  insert_last-IsAscending [] p h = tt
  insert_last-IsAscending (x ∷ []) p h = ground arith
  insert_last-IsAscending (x ∷ y ∷ ys) p h = After-insert_last x.at (y ∷ ys) p h (λ e. cc)

  drop-IsAscending : (n : ℕ) (ps : List (HistoryPoint F)) → IsAscending ps → IsAscending (drop n ps)
  drop-IsAscending zero ps h = h
  drop-IsAscending (suc n) [] h = tt
  drop-IsAscending (suc n) (x ∷ xs) h = drop-IsAscending n xs (After-IsAscending x.at xs h)

  trim-IsAscending : (ps : List (HistoryPoint F)) → IsAscending ps → IsAscending (trim ps)
  unfolding trim
  trim-IsAscending ps h = drop-IsAscending (length ps - capacity) ps h

  -- A ring in range whose points ascend.
  pub record IsOrdered (h : HistoryBuffer F) : Type 0 where
    pub ring : IsRing h
    pub ascending : IsAscending (contents h)

  pub add-IsOrdered : (h : HistoryBuffer F) (p : HistoryPoint F) → IsOrdered h → IsOrdered (add h p)
  add-IsOrdered h p o = record {
    ring = add-IsRing h p o.ring;
    ascending =
        subst IsAscending (sym (contents-add h p o.ring))
          (trim-IsAscending _ (insert_last-IsAscending (contents h) p o.ascending));
  }

  -- Restoring any list of points, valid or not, keeps the ring in range and its times ascending.
  pub restore_history-IsOrdered :
      (h : HistoryBuffer F) (ps : List (HistoryPoint F)) (now : ℕ)
      → IsOrdered h
      → IsOrdered (restore_history h ps now)
  unfolding restore_history
  restore_history-IsOrdered h [] now o = o
  restore_history-IsOrdered h (p ∷ ps) now o = elim (Bool-cases (valid_history_point p now)) [
    | inl good ↦ rw good (
        restore_history-IsOrdered (add h (record p { at = truncate p.at })) ps now
          (add-IsOrdered h (record p { at = truncate p.at }) o))
    | inr bad ↦ rw bad (restore_history-IsOrdered h ps now o)
  ]

  -- The points of a list that the page may show.
  pub keep_valid : ℕ → List (HistoryPoint F) → List (HistoryPoint F)
  keep_valid now [] = []
  keep_valid now (p ∷ ps) =
      if valid_history_point p now then p ∷ keep_valid now ps else keep_valid now ps

  collect-keep_valid :
      (h : HistoryBuffer F) (start now i n : ℕ)
      → collect h start now i n ≡ keep_valid now (segment h.points (start + i) n)
  unfolding collect keep_valid segment
  collect-keep_valid h start now i zero = refl
  collect-keep_valid h start now i (suc n) =
      rw (collect-keep_valid h start now (suc i) n) (rw (← next_start start i) refl)

  pub history-contents :
      (h : HistoryBuffer F) (now : ℕ) → history h now ≡ keep_valid now (contents h)
  unfolding history contents
  history-contents h now =
      collect-keep_valid h (oldest h) now 0 h.count
      ∙ ap (λ (k : ℕ). keep_valid now (segment h.points k h.count)) (add-zero (oldest h))

  After-weaken : (s t : ℕ) (ps : List (HistoryPoint F)) → s ≤ t → After t ps → After s ps
  After-weaken s t [] le h = tt
  After-weaken s t (p ∷ ps) le h = (omega arith, h.1)

  After-keep_valid :
      (t now : ℕ) (ps : List (HistoryPoint F)) → After t ps → After t (keep_valid now ps)
  unfolding keep_valid
  After-keep_valid t now [] h = tt
  After-keep_valid t now (p ∷ ps) h = elim (Bool-cases (valid_history_point p now)) [
    | inl good ↦ rw good (h.0, After-keep_valid p.at now ps h.1)
    | inr bad ↦ rw bad (After-keep_valid t now ps (After-weaken t p.at ps (omega arith) h.1))
  ]

  keep_valid-IsAscending :
      (now : ℕ) (ps : List (HistoryPoint F)) → IsAscending ps → IsAscending (keep_valid now ps)
  unfolding keep_valid
  keep_valid-IsAscending now [] h = tt
  keep_valid-IsAscending now (p ∷ ps) h = elim (Bool-cases (valid_history_point p now)) [
    | inl good ↦ rw good (After-keep_valid p.at now ps h)
    | inr bad ↦ rw bad (keep_valid-IsAscending now ps (After-IsAscending p.at ps h))
  ]

  -- What the chart relies on for each point.
  pub record IsShowable (now : ℕ) (p : HistoryPoint F) : Type 0 where
    pub recent : now ≤ p.at + window
    pub past : p.at ≤ now
    pub known : p.at ≢ 0
    pub used_within : F.le p.used_mib p.total_mib ≡ true
    pub percent_within : F.le p.cpu_percent (F.of_int (pos 100)) ≡ true

  valid-IsShowable :
      (now : ℕ) (p : HistoryPoint F) → valid_history_point p now ≡ true → IsShowable now p
  unfolding valid_history_point
  valid-IsShowable now p h = ground arith

  keep_valid-IsShowable :
      (now : ℕ) (ps : List (HistoryPoint F)) → All (IsShowable now) (keep_valid now ps)
  unfolding keep_valid
  keep_valid-IsShowable now [] = tt
  keep_valid-IsShowable now (p ∷ ps) = elim (Bool-cases (valid_history_point p now)) [
    | inl good ↦ rw good (valid-IsShowable now p good, keep_valid-IsShowable now ps)
    | inr bad ↦ rw bad (keep_valid-IsShowable now ps)
  ]

  -- What `History` shows of an ordered ring: strictly ascending times, and points that are each
  -- within the last hour, not in the future, of at most 100 percent CPU and of a used memory that
  -- is at most the total.
  pub history-IsAscending :
      (h : HistoryBuffer F) (now : ℕ)
      → IsOrdered h
      → IsAscending (history h now) × All (IsShowable now) (history h now)
  history-IsAscending h now o =
      rw (history-contents h now) (
        keep_valid-IsAscending now (contents h) o.ascending,
        keep_valid-IsShowable now (contents h),
      )
