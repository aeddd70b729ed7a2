-- ===== src/ResourceControl/History/Segments.antt =====
-- internal/resourcecontrol/history.go: runs of slots of the ring, and the
-- list of the points that the ring holds, oldest first.
use cliproxy_portal.Common.Float.{Float64}
use cliproxy_portal.Common.{
  ℕ, zero, suc, ◌+◌, ◌-◌, ◌%◌, ◌≤◌, ◌<◌, ◌≡◌, refl, ap, ◌∙◌, ◌≢◌, List, [], ◌∷◌, ◌++◌, arith,
  length,
}
use cliproxy_portal.ResourceControl.History.{
  HistoryPoint, HistoryBuffer, update, newest, oldest, add, capacity,
}

-- The numbers stay in range whatever is added.
pub record IsRing {F : Float64} (h : HistoryBuffer F) : Type 0 where
  pub next_low : h.next < capacity
  pub count_low : h.count ≤ capacity

pub newest_index :
    (next n : ℕ)
    → next < capacity
    → suc n ≤ capacity
    → ((next + capacity - suc n) % capacity + n) % capacity ≡ (next + capacity - 1) % capacity
newest_index next n h k = omega arith

next_index :
    (next n : ℕ)
    → next < capacity
    → n < capacity
    → ((next + capacity - n) % capacity + n) % capacity ≡ next
next_index next n h k = omega arith

full_index : (next : ℕ) → next < capacity → (suc next + 360) % capacity ≡ next
full_index next h = omega arith

module _ {F : Float64} where
  pub add-IsRing : (h : HistoryBuffer F) (p : HistoryPoint F) → IsRing h → IsRing (add h p)
  unfolding add
  add-IsRing h p r = ground arith

  unfoldable pub segment : (ℕ → HistoryPoint F) → ℕ → ℕ → List (HistoryPoint F)
  segment f start zero = []
  segment f start (suc n) = f (start % capacity) ∷ segment f (suc start) n

  -- The points that the ring holds, oldest first.
  unfoldable pub contents : HistoryBuffer F → List (HistoryPoint F)
  contents h = segment h.points (oldest h) h.count

  pub segment-suc :
      (f : ℕ → HistoryPoint F) (start n : ℕ)
      → segment f start (suc n) ≡ segment f start n ++ f ((start + n) % capacity) ∷ []
  unfolding segment
  segment-suc f start zero = ap (λ (k : ℕ). f (k % capacity) ∷ []) (omega arith)
  segment-suc f start (suc n) =
      ap (λ (l : List (HistoryPoint F)). f (start % capacity) ∷ l)
        (segment-suc f (suc start) n
          ∙ ap (λ (k : ℕ). segment f (suc start) n ++ f (k % capacity) ∷ []) (omega arith))

  pub segment_congr :
      (f : ℕ → HistoryPoint F) (s t n : ℕ)
      → s % capacity ≡ t % capacity
      → segment f s n ≡ segment f t n
  unfolding segment
  segment_congr f s t zero e = refl
  segment_congr f s t (suc n) e = rw e (rw (segment_congr f (suc s) (suc t) n (omega arith)))

  pub segment-update :
      (f : ℕ → HistoryPoint F) (j s n : ℕ) (v : HistoryPoint F)
      → ((i : ℕ) → i < n → (s + i) % capacity ≢ j)
      → segment (update f j v) s n ≡ segment f s n
  unfolding segment
  segment-update f j s zero v h = refl
  segment-update f j s (suc n) v h =
      rw (segment-update f j (suc s) n v (λ i lt e. h (suc i) (omega arith) (omega arith)))
        (ground (arith, h 0))

  pub update_self : (f : ℕ → HistoryPoint F) (j : ℕ) (v : HistoryPoint F) → update f j v j ≡ v
  update_self f j v = ground arith

  pub length-segment : (f : ℕ → HistoryPoint F) (s n : ℕ) → length (segment f s n) ≡ n
  unfolding segment
  length-segment f s zero = refl
  length-segment f s (suc n) = ap suc (length-segment f (suc s) n)

  -- A ring that holds a point is a segment and its newest point.
  pub contents-newest :
      (h : HistoryBuffer F) (n : ℕ)
      → IsRing h
      → h.count ≡ suc n
      → segment h.points (oldest h) (suc n)
        ≡ segment h.points (oldest h) n ++ h.points (newest h) ∷ []
  contents-newest h n r e =
      segment-suc h.points (oldest h) n
      ∙ rw (e, newest_index h.next n r.next_low (omega (arith, r.count_low))) refl

  pub segment-cons :
      (f : ℕ → HistoryPoint F) (start n : ℕ)
      → segment f start (suc n) ≡ f (start % capacity) ∷ segment f (suc start) n
  unfolding segment
  segment-cons f start n = refl

  pub length-contents : (h : HistoryBuffer F) → length (contents h) ≡ h.count
  unfolding contents
  length-contents h = length-segment h.points _ h.count

  -- Writing at `next` adds the point behind a segment that ends just before it.
  pub segment-update_next :
      (f : ℕ → HistoryPoint F) (next n : ℕ) (p : HistoryPoint F)
      → next < capacity
      → n < capacity
      → segment (update f next p) ((next + capacity - n) % capacity) (suc n)
        ≡ segment f ((next + capacity - n) % capacity) n ++ p ∷ []
  segment-update_next f next n p h k =
      segment-suc (update f next p) _ n
      ∙ rw (
        segment-update f next ((next + capacity - n) % capacity) n p (λ i lt. omega arith),
        next_index next n h k,
        update_self f next p,
      )

  pub full_left :
      (f : ℕ → HistoryPoint F) (next : ℕ) (p : HistoryPoint F)
      → next < capacity
      → segment (update f next p) (((next + 1) % capacity + capacity - 361) % capacity) 361
        ≡ segment f (suc next) 360 ++ p ∷ []
  full_left f next p h =
      segment_congr (update f next p) _ (suc next) 361 (omega arith)
      ∙ segment-suc (update f next p) (suc next) 360
      ∙ rw (
        segment-update f next (suc next) 360 p (λ i lt. omega arith),
        full_index next h,
        update_self f next p,
      )

  pub full_right :
      (f : ℕ → HistoryPoint F) (next : ℕ)
      → segment f ((next + capacity - capacity) % capacity) capacity
        ≡ f (next % capacity) ∷ segment f (suc next) 360
  full_right f next = segment_congr f _ next capacity (omega arith) ∙ segment-cons f next 360

  pub contents-split :
      (h : HistoryBuffer F) (n : ℕ)
      → IsRing h
      → h.count ≡ suc n
      → contents h ≡ segment h.points (oldest h) n ++ h.points (newest h) ∷ []
  unfolding contents
  contents-split h n r e = ap (segment h.points (oldest h)) e ∙ contents-newest h n r e

  pub contents_empty : (h : HistoryBuffer F) → h.count ≡ 0 → contents h ≡ []
  unfolding contents segment
  contents_empty h e = rw e
