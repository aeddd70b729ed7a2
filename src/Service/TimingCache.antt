-- ===== src/Service/TimingCache.antt =====
-- internal/service/usage_timings.go: the cache of the snapshots of timings. A Go map
-- is a list here, and its order stands for the order in which Go runs through it.
pub mod Bounds
use cliproxy_portal.Common.{
  ℕ, zero, suc, ◌+◌, String, Bool, ◌&&◌, ◌||◌, List, [], ◌∷◌, str_eq, ltb, leb, if◌then◌else◌,
  length, ℤ, delete, insert,
}

pub record GatewayTimingTotal : Type 0 where
  pub bucket_ms : ℤ
  pub samples : ℤ
  pub total_ms : ℤ
  pub stage_samples : ℤ
  pub upload_ms : ℤ
  pub wait_ms : ℤ
  pub response_ms : ℤ

-- The window of a snapshot is left out: the cache does not read it.
pub record Snapshot : Type 0 where
  pub due_ms : ℤ
  pub updated_at : ℕ
  pub minutes : List (ℤ × GatewayTimingTotal)

abbrev pub Cache : Type 0
Cache = List (String × Snapshot)

abbrev pub max_rows : ℕ
max_rows = 50000

abbrev pub max_total_rows : ℕ
max_total_rows = 100000

abbrev pub max_scopes : ℕ
max_scopes = 16

abbrev pub rows : Cache → ℕ
rows [] = 0
rows ((scope, snapshot) ∷ cache) = length snapshot.minutes + rows cache

-- The pass that looks for the scope with the oldest snapshot; "" is none yet.
unfoldable pub oldest_scope : String → ℕ → Cache → String
oldest_scope oldest at [] = oldest
oldest_scope oldest at ((scope, snapshot) ∷ cache) =
    let older = str_eq oldest "" || ltb snapshot.updated_at at in
    oldest_scope (if older then scope else oldest) (if older then snapshot.updated_at else at) cache

abbrev pub has_room : Snapshot → Cache → Bool
has_room next cache =
    ltb (length cache) max_scopes && leb (length next.minutes + rows cache) max_total_rows

-- The loop that makes room, with as much fuel as there are scopes.
unfoldable pub make_room : ℕ → Snapshot → Cache → Cache
make_room zero next cache = cache
make_room (suc fuel) next cache =
    let rest = make_room fuel next (delete (oldest_scope "" 0 cache) cache) in
    if has_room next cache then cache else rest

unfoldable pub put_snapshot : String → Snapshot → Cache → Cache
unfolding make_room oldest_scope
put_snapshot key next cache =
    let others = delete key cache in
    if ltb max_rows (length next.minutes)
    then others
    else insert key next (make_room (length others) next others)
