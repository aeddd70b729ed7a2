-- ===== src/Service/Accounts.antt =====
-- internal/service/accounts.go: registration, login, sessions and passwords. The time is the number of
-- nanoseconds since 1970 and an argument of each operation, as are the random identifiers, tokens and
-- codes, which are missing where there is no randomness.
pub mod Calls
pub mod Keeps
use cliproxy_portal.Common.{ℕ, ◌+◌, ◌-◌, ◌*◌, ◌/◌, ◌^◌, Bool, true, false, not, ◌&&◌, ◌||◌, Option, none, some, List, [], ◌++◌, ltb, leb, ◌==◌, if◌then◌else◌, length, take, drop, codes, same}
use cliproxy_portal.Security.{Functions, normalize_phone, valid_password, token_hash}
use cliproxy_portal.Store.{Role, user, admin, UserStatus, pending, rejected, approved, suspended, suspended_pending, delete_pending, deleted, User, Session, PasswordReset, AuditEvent, Db, Refusal, unavailable, taken, not_found, invalid_credentials, registration_closed, bad_phone, bad_name, bad_password, stale_policy, bad_state, bad_reset, no_permission, no_reason, no_randomness, wrong_password, Outcome, done, refused, Act, give, refuse, continue_with, ◌>>=◌, attempt, require, from_option, or_refuse}
use cliproxy_portal.Store.Statements.{same_status, is_admin, execute, ask, insert_user, approve_user, reject_user, set_user_phone, resubmit_user, set_password, touch_login, insert_session, touch_session, delete_session, delete_user_sessions, replace_reset, use_reset, insert_audit, user_by_phone, user_by_id, session_of, reset_of}

abbrev pub millisecond : ℕ
millisecond = 1000000

abbrev pub second : ℕ
second = 1000 * millisecond

abbrev pub minute : ℕ
minute = 60 * second

abbrev hour : ℕ
hour = 60 * minute

abbrev day : ℕ
day = 24 * hour

-- `timeMS`.
abbrev pub ms : ℕ → ℕ
ms now = now / millisecond

-- `now.Sub` of a time of a table, which is as long as can be where there is none.
abbrev pub elapsed : ℕ → ℕ → ℕ
elapsed now time = if time == 0 then 2 ^ 63 - 1 else now - time * millisecond

abbrev pub session_idle : Bool → ℕ
session_idle remember = if remember then 7 * day else 30 * minute

abbrev pub session_max : Bool → ℕ
session_max remember = if remember then 30 * day else 8 * hour

abbrev mask_phone : List ℕ → List ℕ
mask_phone phone =
    if length phone == 11 then take 3 phone ++ codes "****" ++ drop 7 phone else phone

abbrev pub phone_of : User → List ℕ
phone_of u = elim (u.phone) [ none ↦ [] | some phone ↦ phone ]

abbrev masked_user : User → List ℕ
masked_user u =
    if same u.name []
    then codes "匿名用户"
    else u.name ++ codes "(" ++ mask_phone (phone_of u) ++ codes ")"

-- An event without an actor, and one with.
abbrev target_event : User → (action ip : List ℕ) → ℕ → AuditEvent
target_event u action ip now = record {
  actor_user_id = [];
  actor_label = [];
  action = action;
  target_id = u.id;
  target_label = masked_user u;
  detail = [];
  ip = ip;
  created_at = ms now;
}

abbrev actor_event : (actor target : User) → (action ip : List ℕ) → ℕ → AuditEvent
actor_event actor target action ip now =
    record (target_event target action ip now) {
      actor_user_id = actor.id;
      actor_label = masked_user actor;
    }

abbrev pub audit : AuditEvent → Act (Unit {0})
audit e = do
  _ ← execute (insert_audit e)
  give tt

abbrev pub or_zero : Outcome ℕ × Db → Outcome ℕ × Db
or_zero (done version, db) = (done version, db)
or_zero (refused e, db) = (done 0, db)

-- A query whose error is not looked at: 0 where there is no version.
unfoldable pub policy_or_none : Act ℕ
policy_or_none db = or_zero (ask (λ db. db.latest_policy) db)

module _ (f : Functions) where
  abbrev truncate : List ℕ → ℕ → List ℕ
  truncate value n =
      let value = f.trim_space value in if ltb n (length value) then take n value else value

  abbrev event : (actor target : User) → (action detail ip : List ℕ) → ℕ → AuditEvent
  event actor target action detail ip now =
      record (actor_event actor target action ip now) { detail = truncate detail 500 }

  abbrev valid_name : List ℕ → Bool
  valid_name name = not (ltb (f.rune_count name) 2) && not (ltb 50 (f.rune_count name))

  abbrev new_user : (id phone name hash : List ℕ) → (policy now : ℕ) → User
  new_user id phone name hash policy now = record {
    id = id;
    phone = some phone;
    name = name;
    password_hash = hash;
    role = user;
    status = pending;
    rejection_reason = [];
    suspension_reason = [];
    policy_version = policy;
    policy_accepted_at = ms now;
    approved_at = 0;
    created_at = ms now;
    updated_at = ms now;
    last_login_at = 0;
    deleted_at = 0;
    issue_cooldown_until = 0;
  }

  unfoldable pub register :
      (phone_input name password : List ℕ) (policy_version : ℕ) (ip : List ℕ) → Option (List ℕ) → ℕ
      → Act User
  register phone_input name_input password policy_version ip new_id now = do
    accepting ← ask (λ db. some db.registration_open)
    _ ← require accepting registration_closed
    phone ← from_option (normalize_phone f phone_input) bad_phone
    let name = f.trim_space name_input
    _ ← require (valid_name name) bad_name
    _ ← require (valid_password f password phone false) bad_password
    policy ← ask (λ db. db.latest_policy)
    _ ← require (policy_version == policy) stale_policy
    hash ← from_option (f.hash_password password) no_randomness
    id ← from_option new_id no_randomness
    let u = new_user id phone name hash policy now
    _ ← execute (insert_user u)
    _ ← attempt (audit (target_event u (codes "user.register") ip now))
    give u

  unfoldable pub resubmit :
      User → (name password : List ℕ) (policy_version : ℕ) (ip : List ℕ) → ℕ → Act (Unit {0})
  resubmit u name_input password policy_version ip now = do
    _ ← require (same_status u.status rejected) bad_state
    let name = f.trim_space name_input
    _ ← require (valid_name name) bad_name
    _ ← require (valid_password f password (phone_of u) false) bad_password
    policy ← ask (λ db. db.latest_policy)
    _ ← require (policy_version == policy) stale_policy
    hash ← from_option (f.hash_password password) no_randomness
    _ ← execute (resubmit_user u.id name hash policy (ms now) (ms now))
    audit (actor_event u u (codes "user.resubmit") ip now)

  unfoldable pub authenticate : (phone_input password : List ℕ) → ℕ → Act User
  authenticate phone_input password now = do
    phone ← from_option (normalize_phone f phone_input) invalid_credentials
    u ← or_refuse (ask (user_by_phone phone)) invalid_credentials
    _ ←
      require
        (not
          (same_status u.status deleted
            || same u.password_hash []
            || not (f.verify_password u.password_hash password))) invalid_credentials
    _ ← attempt (execute (touch_login u.id (ms now)))
    give (record u { last_login_at = ms now })

  unfoldable pub create_session :
      User → (ip user_agent : List ℕ) → Bool → Option (List ℕ) → ℕ → Act (List ℕ)
  create_session u ip user_agent remember new_token now = do
    token ← from_option new_token no_randomness
    _ ←
      execute
        (insert_session
          record {
            token_hash = token_hash f token;
            user_id = u.id;
            created_at = ms now;
            last_seen = ms now;
            expires_at = ms (now + session_max remember);
            ip = ip;
            user_agent = truncate user_agent 250;
            remember = remember;
          })
    give token

  -- A session that is over, or whose user is leaving.
  abbrev pub is_over : ℕ → Session → User → Bool
  is_over now v u =
      leb (v.expires_at * millisecond) now
      || leb (session_max v.remember) (elapsed now v.created_at)
      || leb (session_idle v.remember) (elapsed now v.last_seen)
      || same_status u.status deleted
      || same_status u.status delete_pending

  -- What becomes of a session: it is dropped, kept or touched.
  abbrev pub resolve_found : ℕ → List ℕ → Session → User → Act (User × Session)
  resolve_found now hash v u =
      if is_over now v u
      then
        (do
          _ ← attempt (execute (delete_session hash))
          refuse not_found)
      else
        if ltb minute (elapsed now v.last_seen)
        then
          (do
            _ ← attempt (execute (touch_session hash (ms now)))
            give (u, record v { last_seen = ms now }))
        else give (u, v)

  unfoldable pub resolve_session : (token : List ℕ) → ℕ → Act (User × Session)
  resolve_session token now = do
    _ ← require (not (same token [])) not_found
    v ← ask (session_of (token_hash f token))
    u ← ask (user_by_id v.user_id)
    resolve_found now (token_hash f token) v u

  unfoldable pub logout : (token : List ℕ) → Act (Unit {0})
  logout token =
      if same token []
      then give tt
      else (execute (delete_session (token_hash f token)) >>= λ n. give tt)

  unfoldable pub change_password :
      User → (current next current_session ip : List ℕ) → ℕ → Act (Unit {0})
  change_password u current next current_session ip now = do
    _ ← require (f.verify_password u.password_hash current) wrong_password
    _ ← require (valid_password f next (phone_of u) (is_admin u.role)) bad_password
    hash ← from_option (f.hash_password next) no_randomness
    _ ← execute (set_password u.id hash (ms now))
    _ ← execute (delete_user_sessions u.id current_session)
    audit (actor_event u u (codes "user.password.change") ip now)

  abbrev admin_event : Option User → User → List ℕ → ℕ → AuditEvent
  admin_event none u ip now = target_event u (codes "admin.create") ip now
  admin_event (some actor) u ip now = actor_event actor u (codes "admin.create") ip now

  unfoldable pub create_admin :
      (phone_input name password : List ℕ) → Option User → (ip : List ℕ) → Option (List ℕ) → ℕ
      → Act User
  create_admin phone_input name_input password actor ip new_id now = do
    phone ← from_option (normalize_phone f phone_input) bad_phone
    let name = f.trim_space name_input
    _ ← require (not (ltb (f.rune_count name) 2)) bad_name
    _ ← require (valid_password f password phone true) bad_password
    hash ← from_option (f.hash_password password) no_randomness
    id ← from_option new_id no_randomness
    policy ← policy_or_none
    let u : User =
      record (new_user id phone name hash policy now) {
        role = admin;
        status = approved;
        approved_at = ms now;
      }
    _ ← execute (insert_user u)
    _ ← attempt (audit (admin_event actor u ip now))
    give u

  abbrev pub code_hash : List ℕ → List ℕ
  code_hash code = f.hmac (codes "reset:" ++ code)

  -- The row of a reset.
  abbrev pub reset_row : List ℕ → User → ℕ → PasswordReset
  reset_row code target now = record {
    code_hash = code_hash code;
    user_id = target.id;
    expires_at = ms (now + 15 * minute);
    used_at = 0;
    created_at = ms now;
  }

  unfoldable pub generate_reset :
      (actor target : User) (ip : List ℕ) → Option (List ℕ) → ℕ → Act (List ℕ)
  generate_reset actor target ip new_code now = do
    code ← from_option new_code no_randomness
    _ ← execute (replace_reset (reset_row code target now))
    _ ← attempt (audit (actor_event actor target (codes "user.password.reset_issued") ip now))
    give code

  -- The row of the code is used: one row, or none.
  abbrev pub use_code : List ℕ → ℕ → Act (Unit {0})
  use_code hash now = do
    n ← execute (use_reset hash (ms now))
    require (n == 1) not_found

  unfoldable pub reset_password :
      (phone_input code password ip : List ℕ) → ℕ → Act (Unit {0})
  reset_password phone_input code password ip now = do
    phone ← from_option (normalize_phone f phone_input) bad_reset
    u ← or_refuse (ask (user_by_phone phone)) bad_reset
    v ← or_refuse (ask (reset_of (code_hash (f.to_upper (f.trim_space code))))) bad_reset
    _ ←
      require (same v.user_id u.id && (v.used_at == 0) && leb now (v.expires_at * millisecond))
        bad_reset
    _ ← require (valid_password f password (phone_of u) (is_admin u.role)) bad_password
    hash ← from_option (f.hash_password password) no_randomness
    _ ← or_refuse (use_code v.code_hash now) bad_reset
    _ ← execute (set_password u.id hash (ms now))
    _ ← attempt (execute (delete_user_sessions u.id []))
    audit (target_event u (codes "user.password.reset") ip now)

  unfoldable pub approve : (actor target : User) (note ip : List ℕ) → ℕ → Act (Unit {0})
  approve actor target note ip now = do
    _ ← require (is_admin actor.role) no_permission
    _ ← execute (approve_user target.id (ms now))
    audit (event actor target (codes "user.approve") note ip now)

  unfoldable pub reject : (actor target : User) (reason ip : List ℕ) → ℕ → Act (Unit {0})
  reject actor target reason_input ip now = do
    let reason = f.trim_space reason_input
    _ ← require (not (same reason [])) no_reason
    _ ← execute (reject_user target.id reason (ms now))
    audit (event actor target (codes "user.reject") reason ip now)

  unfoldable pub change_phone : (actor target : User) (phone_input ip : List ℕ) → ℕ → Act (Unit {0})
  change_phone actor target phone_input ip now = do
    _ ← require (is_admin actor.role) no_permission
    phone ← from_option (normalize_phone f phone_input) bad_phone
    _ ← execute (set_user_phone target.id phone (ms now))
    audit
      (event actor target (codes "user.phone.change")
        (mask_phone (phone_of target) ++ codes " -> " ++ mask_phone phone) ip now)
