-- ===== src/Store/Statements.antt =====
-- internal/store/store.go: what each statement on the tables of the accounts does.
use cliproxy_portal.Common.{ℕ, ◌+◌, Bool, true, false, not, ◌&&◌, ◌||◌, Option, none, some, List, [], ◌∷◌, ltb, leb, ◌==◌, if◌then◌else◌, same}
use cliproxy_portal.Store.{Role, user, admin, UserStatus, pending, rejected, approved, suspended, suspended_pending, delete_pending, deleted, User, Session, PasswordReset, AuditEvent, Db, Refusal, unavailable, taken, not_found, Outcome, done, refused, Act}

abbrev pub same_status : UserStatus → UserStatus → Bool
same_status pending pending = true
same_status rejected rejected = true
same_status approved approved = true
same_status suspended suspended = true
same_status suspended_pending suspended_pending = true
same_status delete_pending delete_pending = true
same_status deleted deleted = true
same_status a b = false

abbrev pub is_admin : Role → Bool
is_admin user = false
is_admin admin = true

abbrev pub same_phone : Option (List ℕ) → List ℕ → Bool
same_phone none phone = false
same_phone (some p) phone = same p phone

-- The rows that pass a test: whether there are any, how many, and the first of them.
abbrev pub any_row : {A : Type 0} → (A → Bool) → List A → Bool
any_row test [] = false
any_row test (row ∷ rows) = test row || any_row test rows

abbrev pub count_rows : {A : Type 0} → (A → Bool) → List A → ℕ
count_rows test [] = 0
count_rows test (row ∷ rows) = (if test row then 1 else 0) + count_rows test rows

abbrev pub first_row : {A : Type 0} → (A → Bool) → List A → Option A
first_row test [] = none
first_row test (row ∷ rows) = let later = first_row test rows in if test row then some row else later

-- `UPDATE … WHERE` and `DELETE … WHERE`.
abbrev pub update_rows : {A : Type 0} → (A → Bool) → (A → A) → List A → List A
update_rows test change [] = []
update_rows test change (row ∷ rows) =
    (if test row then change row else row) ∷ update_rows test change rows

abbrev pub delete_rows : {A : Type 0} → (A → Bool) → List A → List A
delete_rows test [] = []
delete_rows test (row ∷ rows) =
    let rest = delete_rows test rows in if test row then rest else row ∷ rest

pub data Statement : Type 0 where
  insert_user : User → Statement
  approve_user : (id : List ℕ) (now : ℕ) → Statement
  reject_user : (id reason : List ℕ) (now : ℕ) → Statement
  set_user_status : (id : List ℕ) → UserStatus → (reason : List ℕ) (now : ℕ) → Statement
  set_user_phone : (id phone : List ℕ) (now : ℕ) → Statement
  resubmit_user : (id name hash : List ℕ) (policy accepted now : ℕ) → Statement
  set_user_role : (id : List ℕ) → Role → (now : ℕ) → Statement
  demote_admin : (id : List ℕ) (now : ℕ) → Statement
  set_password : (id hash : List ℕ) (now : ℕ) → Statement
  touch_login : (id : List ℕ) (now : ℕ) → Statement
  set_issue_cooldown : (id : List ℕ) (until now : ℕ) → Statement
  anonymize_user : (id anonymous : List ℕ) (now : ℕ) → Statement
  insert_session : Session → Statement
  touch_session : (hash : List ℕ) (time : ℕ) → Statement
  delete_session : (hash : List ℕ) → Statement
  delete_user_sessions : (id except : List ℕ) → Statement
  cleanup_sessions : (now : ℕ) → Statement
  replace_reset : PasswordReset → Statement
  use_reset : (hash : List ℕ) (now : ℕ) → Statement
  insert_audit : AuditEvent → Statement
  set_registration_open : Bool → Statement

abbrev pub of_id : List ℕ → User → Bool
of_id id u = same u.id id

abbrev pub is_active_admin : User → Bool
is_active_admin u = is_admin u.role && same_status u.status approved

abbrev pub holds_phone : List ℕ → User → Bool
holds_phone phone u = same_phone u.phone phone

abbrev phone_taken : Option (List ℕ) → List User → Bool
phone_taken none users = false
phone_taken (some phone) users = any_row (holds_phone phone) users

abbrev is_undeleted : User → Bool
is_undeleted u = not (same_status u.status deleted)

-- An update of the users, with the number of rows.
abbrev on_users : (User → Bool) → (User → User) → Db → Option (ℕ × Db)
on_users test change db =
    some (count_rows test db.users, record db { users = update_rows test change db.users })

abbrev without_sessions : (Session → Bool) → Db → Option (ℕ × Db)
without_sessions test db =
    some (count_rows test db.sessions, record db { sessions = delete_rows test db.sessions })

abbrev pub of_user : (id except : List ℕ) → Session → Bool
of_user id except v = same v.user_id id && (same except [] || not (same v.token_hash except))

abbrev can_approve : List ℕ → User → Bool
can_approve id u =
    of_id id u
    && (same_status u.status pending
      || same_status u.status rejected
      || same_status u.status suspended)

abbrev can_reject : List ℕ → User → Bool
can_reject id u =
    of_id id u && (same_status u.status pending || same_status u.status rejected)

-- An administrator who is approved is demoted only where another one is.
abbrev can_demote : List ℕ → List User → User → Bool
can_demote id users u =
    of_id id u
    && is_admin u.role
    && is_undeleted u
    && (not (same_status u.status approved) || ltb 1 (count_rows is_active_admin users))

-- A reset that is open, with the time in milliseconds.
abbrev pub is_open : List ℕ → ℕ → PasswordReset → Bool
is_open hash now v = same v.code_hash hash && (v.used_at == 0) && leb now v.expires_at

-- The phone of another row would be the same.
abbrev phone_clash : (id phone : List ℕ) → List User → Bool
phone_clash id phone users =
    any_row (λ (u : User). of_id id u && is_undeleted u) users
    && any_row (λ (u : User). not (of_id id u) && holds_phone phone u) users

-- An empty id is NULL in the log, which equals nothing.
abbrev names : (id in_log : List ℕ) → Bool
names id in_log = not (same in_log []) && same in_log id

abbrev without_actor : (id anonymous : List ℕ) → List AuditEvent → List AuditEvent
without_actor id anonymous =
    update_rows (λ (e : AuditEvent). names id e.actor_user_id)
      (λ e. record e { actor_user_id = []; actor_label = anonymous })

abbrev without_target : (id anonymous : List ℕ) → List AuditEvent → List AuditEvent
without_target id anonymous =
    update_rows (λ (e : AuditEvent). names id e.target_id)
      (λ e. record e { target_id = []; target_label = anonymous })

-- What a statement does, and nothing where a constraint of the table forbids it.
unfoldable pub effect : Statement → Db → Option (ℕ × Db)
effect (insert_user u) db =
    if any_row (of_id u.id) db.users || phone_taken u.phone db.users
    then none
    else some (1, record db { users = u ∷ db.users })
effect (approve_user id now) db =
    on_users (can_approve id)
      (λ u.
        record u {
          status = approved;
          rejection_reason = [];
          suspension_reason = [];
          approved_at = now;
          updated_at = now;
        }) db
effect (reject_user id reason now) db =
    on_users (can_reject id)
      (λ u. record u { status = rejected; rejection_reason = reason; updated_at = now }) db
effect (set_user_status id status reason now) db =
    on_users (of_id id)
      (λ u. record u { status = status; suspension_reason = reason; updated_at = now }) db
effect (set_user_phone id phone now) db =
    if phone_clash id phone db.users
    then none
    else
      on_users (λ (u : User). of_id id u && is_undeleted u)
        (λ u. record u { phone = some phone; updated_at = now }) db
effect (resubmit_user id name hash policy accepted now) db =
    on_users (λ (u : User). of_id id u && same_status u.status rejected)
      (λ u.
        record u {
          name = name;
          password_hash = hash;
          status = pending;
          rejection_reason = [];
          policy_version = policy;
          policy_accepted_at = accepted;
          updated_at = now;
        }) db
effect (set_user_role id role now) db =
    on_users (λ (u : User). of_id id u && is_undeleted u)
      (λ u. record u { role = role; updated_at = now }) db
effect (demote_admin id now) db =
    on_users (can_demote id db.users) (λ u. record u { role = user; updated_at = now }) db
effect (set_password id hash now) db =
    on_users (of_id id) (λ u. record u { password_hash = hash; updated_at = now }) db
effect (touch_login id now) db =
    on_users (of_id id) (λ u. record u { last_login_at = now; updated_at = now }) db
effect (set_issue_cooldown id until now) db =
    on_users (of_id id) (λ u. record u { issue_cooldown_until = until; updated_at = now }) db
effect (anonymize_user id anonymous now) db =
    on_users (of_id id)
      (λ u.
        record u {
          phone = none;
          name = anonymous;
          password_hash = [];
          status = deleted;
          rejection_reason = [];
          suspension_reason = [];
          deleted_at = now;
          updated_at = now;
        })
      record db {
        audits = without_target id anonymous (without_actor id anonymous db.audits);
        sessions = delete_rows (λ (v : Session). same v.user_id id) db.sessions;
        resets = delete_rows (λ (v : PasswordReset). same v.user_id id) db.resets;
      }
effect (insert_session v) db =
    if any_row (λ (w : Session). same w.token_hash v.token_hash) db.sessions
      || not (any_row (of_id v.user_id) db.users)
    then none
    else some (1, record db { sessions = v ∷ db.sessions })
effect (touch_session hash time) db =
    some
      (count_rows (λ (v : Session). same v.token_hash hash) db.sessions,
        record db {
          sessions =
              update_rows (λ (v : Session). same v.token_hash hash)
                (λ v. record v { last_seen = time }) db.sessions;
        })
effect (delete_session hash) db = without_sessions (λ (v : Session). same v.token_hash hash) db
effect (delete_user_sessions id except) db = without_sessions (of_user id except) db
effect (cleanup_sessions now) db = without_sessions (λ (v : Session). ltb v.expires_at now) db
effect (replace_reset v) db =
    let others = delete_rows (λ (w : PasswordReset). same w.user_id v.user_id) db.resets in
    if any_row (λ (w : PasswordReset). same w.code_hash v.code_hash) others
      || not (any_row (of_id v.user_id) db.users)
    then none
    else some (1, record db { resets = v ∷ others })
effect (use_reset hash now) db =
    some
      (count_rows (is_open hash now) db.resets,
        record db {
          resets = update_rows (is_open hash now) (λ v. record v { used_at = now }) db.resets;
        })
effect (insert_audit e) db = some (1, record db { audits = e ∷ db.audits })
effect (set_registration_open value) db = some (1, record db { registration_open = value })

-- Whether the next statement is carried out.
abbrev pub next_answer : List Bool → Bool × List Bool
next_answer [] = (true, [])
next_answer (b ∷ bs) = (b, bs)

abbrev pub rows_of : Db → Option (ℕ × Db) → Outcome ℕ × Db
rows_of db none = (refused taken, db)
rows_of db (some (n, db')) = (done n, db')

-- A statement is carried out, fails, or breaks a constraint; in the last two cases the tables stay.
unfoldable pub execute : Statement → Act ℕ
unfolding effect
execute s db =
    let answered : Db = record db { answers = (next_answer db.answers).1 } in
    if (next_answer db.answers).0
    then rows_of answered (effect s answered)
    else (refused unavailable, answered)

abbrev pub row_found : {A : Type 0} → Db → Option A → Outcome A × Db
row_found db none = (refused not_found, db)
row_found db (some row) = (done row, db)

-- A row that is asked for.
unfoldable pub ask : {A : Type 0} → (Db → Option A) → Act A
ask query db =
    let answered : Db = record db { answers = (next_answer db.answers).1 } in
    if (next_answer db.answers).0
    then row_found answered (query db)
    else (refused unavailable, answered)

abbrev pub user_by_phone : List ℕ → Db → Option User
user_by_phone phone db = first_row (λ (u : User). holds_phone phone u && is_undeleted u) db.users

abbrev pub user_by_id : List ℕ → Db → Option User
user_by_id id db = first_row (of_id id) db.users

abbrev pub session_of : List ℕ → Db → Option Session
session_of hash db = first_row (λ (v : Session). same v.token_hash hash) db.sessions

abbrev pub reset_of : List ℕ → Db → Option PasswordReset
reset_of hash db = first_row (λ (v : PasswordReset). same v.code_hash hash) db.resets
