-- ===== src/ResourceControl/History.antt =====
-- internal/resourcecontrol/history.go: one hour of ten-second peaks in a ring of 361 slots. The
-- array is a function of the index, and every index that the code makes is taken modulo 361.
pub mod Segments
pub mod Ring
pub mod Order
use cliproxy_portal.Common.Float.{Float64}
use cliproxy_portal.Common.{
  ℕ, zero, suc, ◌+◌, ◌-◌, ◌*◌, ◌/◌, ◌%◌, max, Bool, not, ◌&&◌, List, [], ◌∷◌, ltb, leb, ◌==◌,
  if◌then◌else◌, pos,
}
use cliproxy_portal.ResourceControl.Metrics.{second}

abbrev pub window : ℕ
window = 3600 * second

abbrev pub interval : ℕ
interval = 10 * second

abbrev pub capacity : ℕ
capacity = window / interval + 1

-- Go's `Truncate` of a time to ten seconds.
abbrev pub truncate : ℕ → ℕ
truncate at = at - at % interval

pub record HistoryPoint (F : Float64) : Type 0 where
  pub at : ℕ
  pub cpu_percent : F.Value
  pub used_mib : F.Value
  pub total_mib : F.Value

pub record HistoryBuffer (F : Float64) : Type 0 where
  pub points : ℕ → HistoryPoint F
  pub next : ℕ
  pub count : ℕ

abbrev pub update {ℓ} : {A : Type ℓ} → (ℕ → A) → ℕ → A → ℕ → A
update f i v j = if i == j then v else f j

module _ {F : Float64} where
  abbrev pub merge : HistoryPoint F → HistoryPoint F → HistoryPoint F
  merge last p = record last {
    cpu_percent = F.max last.cpu_percent p.cpu_percent;
    used_mib = F.max last.used_mib p.used_mib;
    total_mib = F.max last.total_mib p.total_mib;
  }

  abbrev pub newest : HistoryBuffer F → ℕ
  newest h = (h.next + capacity - 1) % capacity

  append_point : HistoryBuffer F → HistoryPoint F → HistoryBuffer F
  append_point h p = record {
    points = update h.points h.next p;
    next = (h.next + 1) % capacity;
    count = if ltb h.count capacity then h.count + 1 else h.count;
  }

  merge_point : HistoryBuffer F → HistoryPoint F → HistoryBuffer F
  merge_point h p = record h { points = update h.points (newest h) (merge (h.points (newest h)) p) }

  unfoldable pub add : HistoryBuffer F → HistoryPoint F → HistoryBuffer F
  unfolding append_point merge_point
  add h p =
      if ltb 0 h.count && ltb p.at (h.points (newest h)).at
      then h
      else if ltb 0 h.count && (p.at == (h.points (newest h)).at)
      then merge_point h p
      else append_point h p

  unfoldable pub valid_history_point : HistoryPoint F → ℕ → Bool
  valid_history_point p now =
      not (p.at == 0)
      && leb now (p.at + window)
      && leb p.at now
      && not (F.is_nan p.cpu_percent)
      && not (F.is_inf p.cpu_percent)
      && F.le (F.of_int (pos 0)) p.cpu_percent
      && F.le p.cpu_percent (F.of_int (pos 100))
      && not (F.is_nan p.used_mib)
      && not (F.is_inf p.used_mib)
      && F.le (F.of_int (pos 0)) p.used_mib
      && not (F.is_nan p.total_mib)
      && not (F.is_inf p.total_mib)
      && F.lt (F.of_int (pos 0)) p.total_mib
      && F.le p.used_mib p.total_mib

  unfoldable pub restore_history : HistoryBuffer F → List (HistoryPoint F) → ℕ → HistoryBuffer F
  restore_history h [] now = h
  restore_history h (p ∷ ps) now =
      restore_history
        (if valid_history_point p now then add h (record p { at = truncate p.at }) else h) ps now

  -- The loop of `History`, from index i on, with so many rounds left.
  collect : HistoryBuffer F → ℕ → ℕ → ℕ → ℕ → List (HistoryPoint F)
  collect h start now i zero = []
  collect h start now i (suc rounds) =
      let p = h.points ((start + i) % capacity) in
      let rest = collect h start now (suc i) rounds in
      if valid_history_point p now then p ∷ rest else rest

  abbrev pub oldest : HistoryBuffer F → ℕ
  oldest h = (h.next + capacity - h.count) % capacity

  unfoldable pub history : HistoryBuffer F → ℕ → List (HistoryPoint F)
  unfolding collect
  history h now = collect h (oldest h) now 0 h.count
