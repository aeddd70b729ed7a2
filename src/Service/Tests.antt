-- ===== src/Service/Tests.antt =====
-- internal/service/usage_timings.go: a cache that takes two snapshots.
use cliproxy_portal.Common.{
  ◌≡◌, none, some, [], ◌∷◌, arith, ltb, if◌then◌else◌, length, pos, lookup,
}
use cliproxy_portal.Service.TimingCache.{Snapshot, Cache, put_snapshot, max_rows}
use cliproxy_portal.Service.TimingCache.Bounds.{
  IsBounded, put_snapshot-IsBounded, lookup-put_snapshot,
}

abbrev snapshot : Snapshot
snapshot = record { due_ms = pos 9; updated_at = 5; minutes = [] }

abbrev one : Cache
one = ("a", snapshot) ∷ []

one-IsBounded : IsBounded one
one-IsBounded = record { few = omega arith; small = omega arith }

put_snapshot-IsBounded_example : IsBounded (put_snapshot "b" snapshot one)
put_snapshot-IsBounded_example = put_snapshot-IsBounded "b" snapshot one one-IsBounded

lookup-put_snapshot_example :
    lookup "b" (put_snapshot "b" snapshot one)
    ≡ (if ltb max_rows (length snapshot.minutes) then none else some snapshot)
lookup-put_snapshot_example = lookup-put_snapshot "b" snapshot one
