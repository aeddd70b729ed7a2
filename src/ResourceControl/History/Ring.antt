-- ===== src/ResourceControl/History/Ring.antt =====
-- internal/resourcecontrol/history.go: the ring against the list of its points, oldest first.
use native.Mathlib.Numerals.{add-one}
use cliproxy_portal.Common.Float.{Float64}
use cliproxy_portal.Common.{
  ℕ, zero, suc, ◌+◌, ◌-◌, ◌%◌, ◌≤◌, ◌<◌, ◌≡◌, refl, sym, ap, ◌∙◌, inl, inr, true, false, List, [],
  ◌∷◌, ◌++◌, append_assoc, arith, ltb, ◌==◌, if◌then◌else◌, ltb→lt, lt→ltb, tests, Bool-cases,
  length, drop, length-append,
}
use cliproxy_portal.ResourceControl.History.{
  HistoryPoint, HistoryBuffer, update, merge, newest, oldest, append_point, merge_point, add,
  capacity,
}
use cliproxy_portal.ResourceControl.History.Segments.{
  IsRing, segment, contents, length-segment, length-contents, segment-update_next, full_left,
  full_right, contents-split, contents_empty, segment-suc, segment-update, update_self,
  segment_congr, newest_index,
}

module _ {F : Float64} where
  -- What `add` means on the list: a late point is dropped, one of the newest bucket is merged
  -- into it, any other goes to the end.
  unfoldable pub insert_last : List (HistoryPoint F) → HistoryPoint F → List (HistoryPoint F)
  insert_last [] p = p ∷ []
  insert_last (x ∷ []) p =
      if ltb p.at x.at then x ∷ [] else if p.at == x.at then merge x p ∷ [] else x ∷ p ∷ []
  insert_last (x ∷ y ∷ ys) p = x ∷ insert_last (y ∷ ys) p

  -- Only the newest 361 points are kept.
  unfoldable pub trim : List (HistoryPoint F) → List (HistoryPoint F)
  trim xs = drop (length xs - capacity) xs

  insert_last-append :
      (xs : List (HistoryPoint F)) (x p : HistoryPoint F)
      → insert_last (xs ++ x ∷ []) p ≡ xs ++ insert_last (x ∷ []) p
  unfolding insert_last
  insert_last-append [] x p = refl
  insert_last-append (y ∷ []) x p = refl
  insert_last-append (y ∷ z ∷ zs) x p =
      ap (λ (l : List (HistoryPoint F)). y ∷ l) (insert_last-append (z ∷ zs) x p)

  trim_full :
      (x : HistoryPoint F) (xs : List (HistoryPoint F)) → length xs ≡ capacity → trim (x ∷ xs) ≡ xs
  unfolding trim
  trim_full x xs h = let e : suc (length xs) - capacity ≡ 1 = omega arith in rw e

  trim_short : (xs : List (HistoryPoint F)) → length xs ≤ capacity → trim xs ≡ xs
  unfolding trim
  trim_short xs h = let e : length xs - capacity ≡ 0 = omega arith in rw e

  append-room :
      (h : HistoryBuffer F) (p : HistoryPoint F)
      → IsRing h
      → h.count < capacity
      → contents (append_point h p) ≡ contents h ++ p ∷ []
  unfolding append_point contents
  append-room h p r lt = rw (lt→ltb _ _ lt) (
      rw (add-one h.count) (
        segment_congr (update h.points h.next p) _ (oldest h) (suc h.count)
          (omega (arith, r.next_low))
        ∙ segment-update_next h.points h.next h.count p r.next_low lt))

  append-full :
      (h : HistoryBuffer F) (p : HistoryPoint F)
      → IsRing h
      → h.count ≡ capacity
      → contents (append_point h p) ≡ trim (contents h ++ p ∷ [])
  unfolding append_point contents
  append-full h p r e =
      rw (e, full_left h.points h.next p r.next_low)
        (sym (
          ap (λ (l : List (HistoryPoint F)). trim (l ++ p ∷ [])) (full_right h.points h.next)
          ∙ trim_full (h.points (h.next % capacity)) _ (
              length-append (segment h.points (suc h.next) 360) (p ∷ [])
              ∙ omega (arith, length-segment h.points (suc h.next) 360))))

  append-contents :
      (h : HistoryBuffer F) (p : HistoryPoint F)
      → IsRing h
      → contents (append_point h p) ≡ trim (contents h ++ p ∷ [])
  append-contents h p r = elim (Bool-cases (ltb h.count capacity)) [
    | inl room ↦
        append-room h p r (ltb→lt _ _ room)
        ∙ sym (trim_short _ (omega (tests, length-append (contents h) (p ∷ []), length-contents h)))
    | inr full ↦ append-full h p r (ground (arith, r.count_low))
  ]

  merge-contents :
      (h : HistoryBuffer F) (p : HistoryPoint F) (n : ℕ)
      → IsRing h
      → h.count ≡ suc n
      → contents (merge_point h p)
        ≡ segment h.points (oldest h) n ++ merge (h.points (newest h)) p ∷ []
  unfolding merge_point contents
  merge-contents h p n r e =
      rw
        (
          e,
          segment-suc (update h.points (newest h) (merge (h.points (newest h)) p))
              ((h.next + capacity - suc n) % capacity) n,
        )
        (rw (
          segment-update h.points (newest h) ((h.next + capacity - suc n) % capacity) n
              (merge (h.points (newest h)) p) (λ i lt. omega (arith, r.next_low, r.count_low)),
          newest_index h.next n r.next_low (omega (arith, r.count_low)),
          update_self h.points (newest h) (merge (h.points (newest h)) p),
        ))

  add_empty : (h : HistoryBuffer F) (p : HistoryPoint F) → h.count ≡ 0 → add h p ≡ append_point h p
  unfolding add
  add_empty h p e = rw e

  -- The three branches of `add` on a ring that holds a point.
  module _ (h : HistoryBuffer F) (p : HistoryPoint F) (n : ℕ) (e : h.count ≡ suc n) where
    stocked : ltb 0 h.count ≡ true
    stocked = lt→ltb 0 h.count (omega arith)

    add_late : ltb p.at (h.points (newest h)).at ≡ true → add h p ≡ h
    unfolding add
    add_late late = rw (stocked, late)

    add_merge :
        ltb p.at (h.points (newest h)).at ≡ false
        → (p.at == (h.points (newest h)).at) ≡ true
        → add h p ≡ merge_point h p
    unfolding add
    add_merge late same = rw (stocked, late, same)

    add_append :
        ltb p.at (h.points (newest h)).at ≡ false
        → (p.at == (h.points (newest h)).at) ≡ false
        → add h p ≡ append_point h p
    unfolding add
    add_append late same = rw (stocked, late, same)

  insert_last_late : (x p : HistoryPoint F) → ltb p.at x.at ≡ true → insert_last (x ∷ []) p ≡ x ∷ []
  unfolding insert_last
  insert_last_late x p e = rw e

  insert_last-merge :
      (x p : HistoryPoint F)
      → ltb p.at x.at ≡ false
      → (p.at == x.at) ≡ true
      → insert_last (x ∷ []) p ≡ merge x p ∷ []
  unfolding insert_last
  insert_last-merge x p e d = rw (e, d)

  insert_last_append :
      (x p : HistoryPoint F)
      → ltb p.at x.at ≡ false
      → (p.at == x.at) ≡ false
      → insert_last (x ∷ []) p ≡ x ∷ p ∷ []
  unfolding insert_last
  insert_last_append x p e d = rw (e, d)

  insert_last_nil : (p : HistoryPoint F) → insert_last [] p ≡ p ∷ []
  unfolding insert_last
  insert_last_nil p = refl

  trim_last :
      (f : ℕ → HistoryPoint F) (s n : ℕ) (x : HistoryPoint F)
      → suc n ≤ capacity
      → trim (segment f s n ++ x ∷ []) ≡ segment f s n ++ x ∷ []
  trim_last f s n x h =
      trim_short _ (omega (arith, length-append (segment f s n) (x ∷ []), length-segment f s n))

  contents-add_next :
      (h : HistoryBuffer F) (p : HistoryPoint F) (n : ℕ)
      → IsRing h
      → h.count ≡ suc n
      → contents (add h p) ≡ trim (insert_last (contents h) p)
  contents-add_next h p n r e =
      let f = h.points in
      let x = h.points (newest h) in
      let s = oldest h in
      let small : suc n ≤ capacity = omega (arith, r.count_low) in
      let right : insert_last (contents h) p ≡ segment f s n ++ insert_last (x ∷ []) p =
        ap (λ (l : List (HistoryPoint F)). insert_last l p) (contents-split h n r e)
        ∙ insert_last-append (segment f s n) x p in
      rw right (elim (Bool-cases (ltb p.at x.at)) [
        | inl late ↦
            rw (add_late h p n e late, insert_last_late x p late)
              (contents-split h n r e ∙ sym (trim_last f s n x small))
        | inr late ↦ elim (Bool-cases (p.at == x.at)) [
          | inl same ↦
              rw (add_merge h p n e late same, insert_last-merge x p late same)
                (merge-contents h p n r e ∙ sym (trim_last f s n (merge x p) small))
          | inr other ↦
              rw (add_append h p n e late other, insert_last_append x p late other)
                (append-contents h p r
                  ∙ ap (λ (l : List (HistoryPoint F)). trim (l ++ p ∷ [])) (contents-split h n r e)
                  ∙ ap trim (append_assoc (segment f s n) (x ∷ []) (p ∷ [])))
        ]
      ])

  -- Adding a point to a ring whose numbers are in range inserts it at the end of the list of the
  -- ring's points, oldest first: a point older than the newest is dropped, one of the same bucket
  -- is merged into it by maxima, any other is appended and only the newest 361 are kept.
  pub contents-add :
      (h : HistoryBuffer F) (p : HistoryPoint F)
      → IsRing h
      → contents (add h p) ≡ trim (insert_last (contents h) p)
  contents-add h p r = go h.count refl
    where
      go : (k : ℕ) → h.count ≡ k → contents (add h p) ≡ trim (insert_last (contents h) p)
      go zero e =
          rw (add_empty h p e, contents_empty h e, insert_last_nil p)
            (append-contents h p r ∙ rw (contents_empty h e))
      go (suc n) e = contents-add_next h p n r e
