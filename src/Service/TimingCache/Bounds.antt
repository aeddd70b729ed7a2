-- ===== src/Service/TimingCache/Bounds.antt =====
-- internal/service/usage_timings.go: the cache stays small, and totals stay consistent.
use cliproxy_portal.Common.{
  ℕ, zero, suc, ◌≤◌, ◌<◌, String, ◌≡◌, refl, ◌⊎◌, inl, inr, Bool, true, false, ◌||◌, none, some, [],
  ◌∷◌, arith, str_eq, eq_refl, ltb, if◌then◌else◌, Bool-cases, length, lookup, delete, insert,
  lookup-delete, lookup-insert,
}
use cliproxy_portal.Service.TimingCache.{
  Snapshot, Cache, rows, oldest_scope, has_room, make_room, put_snapshot, max_rows, max_scopes,
  max_total_rows,
}

IsKey : String → Cache → Type 0
IsKey key [] = ⊥
IsKey key ((scope, snapshot) ∷ cache) = (str_eq scope key ≡ true) ⊎ IsKey key cache

chosen :
    (older : Bool) (scope oldest found : String)
    → found ≡ (if older then scope else oldest)
    → (found ≡ oldest) ⊎ (str_eq scope found ≡ true)
chosen true scope oldest found e = inr (rw e (eq_refl scope))
chosen false scope oldest found e = inl e

oldest-IsKey :
    (oldest : String) (at : ℕ) (cache : Cache)
    → (oldest_scope oldest at cache ≡ oldest) ⊎ IsKey (oldest_scope oldest at cache) cache
unfolding oldest_scope IsKey
oldest-IsKey oldest at [] = inl refl
oldest-IsKey oldest at ((scope, snapshot) ∷ cache) =
    let older = str_eq oldest "" || ltb snapshot.updated_at at in
    elim (oldest-IsKey (if older then scope else oldest) (if older then snapshot.updated_at else at)
      cache) [
        | inr later ↦ inr (inr later)
        | inl same ↦ elim (chosen older scope oldest _ same) [ inl e ↦ inl e | inr e ↦ inr (inl e) ]
      ]

-- The first scope is taken whatever it is, so a cache that is not empty yields one of its own.
first-IsKey :
    (scope : String) (snapshot : Snapshot) (cache : Cache)
    → IsKey (oldest_scope "" 0 ((scope, snapshot) ∷ cache)) ((scope, snapshot) ∷ cache)
unfolding oldest_scope IsKey
first-IsKey scope snapshot cache = elim (oldest-IsKey scope snapshot.updated_at cache) [
  | inl same ↦ inl (rw same (eq_refl scope))
  | inr later ↦ inr later
]

length-delete : (key : String) (cache : Cache) → length (delete key cache) ≤ length cache
unfolding delete
length-delete key [] = omega arith
length-delete key ((scope, snapshot) ∷ cache) = ground (arith, length-delete key cache)

rows-delete : (key : String) (cache : Cache) → rows (delete key cache) ≤ rows cache
unfolding delete
rows-delete key [] = omega arith
rows-delete key ((scope, snapshot) ∷ cache) = ground (arith, rows-delete key cache)

shorter-delete :
    (key : String) (cache : Cache) → IsKey key cache → length (delete key cache) < length cache
unfolding delete IsKey
shorter-delete key [] h = elim h [ ]
shorter-delete key ((scope, snapshot) ∷ cache) (inl same) =
    ground (arith, length-delete key cache, same)
shorter-delete key ((scope, snapshot) ∷ cache) (inr later) =
    ground (arith, shorter-delete key cache later)

-- A cache within its limits.
pub record IsBounded (cache : Cache) : Type 0 where
  pub few : length cache ≤ max_scopes
  pub small : rows cache ≤ max_total_rows

make_room-has_room :
    (fuel : ℕ) (next : Snapshot) (cache : Cache)
    → length next.minutes ≤ max_rows
    → length cache ≤ fuel
    → has_room next (make_room fuel next cache) ≡ true
unfolding make_room
make_room-has_room zero next [] h le = ground arith
make_room-has_room zero next (entry ∷ cache) h le = absurd (omega arith)
make_room-has_room (suc fuel) next [] h le = ground arith
make_room-has_room (suc fuel) next ((scope, snapshot) ∷ cache) h le =
    let oldest = oldest_scope "" 0 ((scope, snapshot) ∷ cache) in
    let less =
      shorter-delete oldest ((scope, snapshot) ∷ cache) (first-IsKey scope snapshot cache) in
    let later =
      make_room-has_room fuel next (delete oldest ((scope, snapshot) ∷ cache)) h
        (omega (arith, less)) in
    elim (Bool-cases (has_room next ((scope, snapshot) ∷ cache))) [
      | inl room ↦ rw room room
      | inr full ↦ rw full later
    ]

insert-IsBounded :
    (key : String) (next : Snapshot) (cache : Cache)
    → has_room next cache ≡ true
    → IsBounded (insert key next cache)
unfolding insert
insert-IsBounded key next cache room = record {
  few = ground (arith, length-delete key cache, room);
  small = ground (arith, rows-delete key cache, room);
}

-- A cache of at most 16 scopes and 100000 rows stays one, whatever snapshot is put.
pub put_snapshot-IsBounded :
    (key : String) (next : Snapshot) (cache : Cache)
    → IsBounded cache
    → IsBounded (put_snapshot key next cache)
unfolding put_snapshot
put_snapshot-IsBounded key next cache b = elim (Bool-cases (ltb max_rows (length next.minutes))) [
  | inl large ↦ rw large record {
    few = omega (arith, length-delete key cache, b.few);
    small = omega (arith, rows-delete key cache, b.small);
  }
  | inr fits ↦
      let others = delete key cache in
      let kept = make_room (length others) next others in
      let room = make_room-has_room (length others) next others (ground arith) (omega arith) in
      rw fits (insert-IsBounded key next kept room)
]

-- What is put can be read back, unless it alone has more than 50000 rows; then nothing is kept of
-- the key, not even an older snapshot.
pub lookup-put_snapshot :
    (key : String) (next : Snapshot) (cache : Cache)
    → lookup key (put_snapshot key next cache)
      ≡ (if ltb max_rows (length next.minutes) then none else some next)
unfolding put_snapshot
lookup-put_snapshot key next cache = elim (Bool-cases (ltb max_rows (length next.minutes))) [
  | inl large ↦ rw (large, lookup-delete key key cache, eq_refl key) refl
  | inr fits ↦ rw (fits, lookup-insert key key next _, eq_refl key) refl
]
