-- ===== src/Gateway/Body/Observed.antt =====
-- internal/gateway/resource_control.go: what a body reports that is only observed.
use cliproxy_portal.Common.{ℕ, ◌+◌, ◌≡◌, refl, false, List, [], ◌∷◌, arith, ltb, if◌then◌else◌}
use cliproxy_portal.Gateway.Body.{ObservedBody, read_observed, read_all}

abbrev pub sum : List ℕ → ℕ
sum [] = 0
sum (n ∷ ns) = n + sum ns

abbrev pub unread : ℕ → ObservedBody
unread limit = record { limit = limit; read = 0; reported = false; reports = 0 }

-- The flag is set exactly when more than the limit has been read, and counts as one report.
record IsTallied (b : ObservedBody) : Type 0 where
  pub once : b.reports ≡ (if b.reported then 1 else 0)
  pub over : b.reported ≡ ltb b.limit b.read

read-IsTallied : (n : ℕ) (b : ObservedBody) → IsTallied b → IsTallied (read_observed n b)
unfolding read_observed
read-IsTallied n b t = record {
  once = ground (arith, t.once, t.over);
  over = ground (arith, t.once, t.over);
}

read-sum :
    (n : ℕ) (b : ObservedBody)
    → ((read_observed n b).read ≡ b.read + n) × ((read_observed n b).limit ≡ b.limit)
unfolding read_observed
read-sum n b = ground arith

read_all-reports :
    (ns : List ℕ) (b : ObservedBody)
    → IsTallied b
    → (read_all ns b).reports ≡ (if ltb b.limit (b.read + sum ns) then 1 else 0)
unfolding read_all
read_all-reports [] b t = ground (arith, t.once, t.over)
read_all-reports (n ∷ ns) b t =
    let later = read_all-reports ns (read_observed n b) (read-IsTallied n b t) in
    let (read_eq, limit_eq) = read-sum n b in ground (arith, later, read_eq, limit_eq)

-- However a body is cut into reads, it is reported once when it is longer than the limit, and
-- never otherwise.
pub observed-once :
    (limit : ℕ) (ns : List ℕ)
    → (read_all ns (unread limit)).reports ≡ (if ltb limit (sum ns) then 1 else 0)
observed-once limit ns =
    let start : 0 + sum ns ≡ sum ns = omega arith in
    let whole = read_all-reports ns (unread limit) record { once = refl; over = ground arith } in
    rw start at whole
