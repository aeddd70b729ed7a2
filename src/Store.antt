-- ===== src/Store.antt =====
-- internal/store/store.go: the tables of the accounts, and the statements that change them. A text is
-- the list of its bytes, a time in a table the number of milliseconds since 1970, and 0 none.
pub mod Statements
pub mod Rows
pub mod Keeps
use cliproxy_portal.Common.{ℕ, Bool, true, false, Option, none, some, List}

pub data Role : Type 0 where
  user admin : Role

pub data UserStatus : Type 0 where
  pending rejected approved suspended suspended_pending delete_pending deleted : UserStatus

-- A phone is NULL once the user is anonymous.
pub record User : Type 0 where
  pub id : List ℕ
  pub phone : Option (List ℕ)
  pub name : List ℕ
  pub password_hash : List ℕ
  pub role : Role
  pub status : UserStatus
  pub rejection_reason : List ℕ
  pub suspension_reason : List ℕ
  pub policy_version : ℕ
  pub policy_accepted_at : ℕ
  pub approved_at : ℕ
  pub created_at : ℕ
  pub updated_at : ℕ
  pub last_login_at : ℕ
  pub deleted_at : ℕ
  pub issue_cooldown_until : ℕ

pub record Session : Type 0 where
  pub token_hash : List ℕ
  pub user_id : List ℕ
  pub created_at : ℕ
  pub last_seen : ℕ
  pub expires_at : ℕ
  pub ip : List ℕ
  pub user_agent : List ℕ
  pub remember : Bool

pub record PasswordReset : Type 0 where
  pub code_hash : List ℕ
  pub user_id : List ℕ
  pub expires_at : ℕ
  pub used_at : ℕ
  pub created_at : ℕ

pub record AuditEvent : Type 0 where
  pub actor_user_id : List ℕ
  pub actor_label : List ℕ
  pub action : List ℕ
  pub target_id : List ℕ
  pub target_label : List ℕ
  pub detail : List ℕ
  pub ip : List ℕ
  pub created_at : ℕ

-- The tables; the setting and the newest version of the rules, as they are read; and whether each of
-- the next statements is carried out, all of them behind the end of the list.
pub record Db : Type 0 where
  pub users : List User
  pub sessions : List Session
  pub resets : List PasswordReset
  pub audits : List AuditEvent
  pub registration_open : Bool
  pub latest_policy : Option ℕ
  pub answers : List Bool

-- Why an operation ends without a result: a statement that fails, a key that is taken, a row that is
-- not there, or a reason of the service's own.
pub data Refusal : Type 0 where
  unavailable taken not_found invalid_credentials registration_closed bad_phone bad_name bad_password
    stale_policy bad_state bad_reset no_permission no_reason no_randomness wrong_password : Refusal

pub data Outcome (A : Type 0) : Type 0 where
  done : A → Outcome A
  refused : Refusal → Outcome A

-- What runs on the tables, and leaves them as far as it came.
abbrev pub Act : Type 0 → Type 0
Act A = Db → Outcome A × Db

unfoldable pub give : {A : Type 0} → A → Act A
give a db = (done a, db)

unfoldable pub refuse : {A : Type 0} → Refusal → Act A
refuse e db = (refused e, db)

abbrev pub continue_with : {A B : Type 0} → (A → Act B) → Outcome A × Db → Outcome B × Db
continue_with f (refused e, db) = (refused e, db)
continue_with f (done a, db) = f a db

infixl 1 ◌>>=◌
unfoldable pub ◌>>=◌ : {A B : Type 0} → Act A → (A → Act B) → Act B
◌>>=◌ m f db = continue_with f (m db)

-- `_ = m`: its end is not looked at.
unfoldable pub attempt : {A : Type 0} → Act A → Act (Unit {0})
attempt m db = (done tt, (m db).1)

unfoldable pub require : Bool → Refusal → Act (Unit {0})
require true e db = (done tt, db)
require false e db = (refused e, db)

unfoldable pub from_option : {A : Type 0} → Option A → Refusal → Act A
from_option none e db = (refused e, db)
from_option (some a) e db = (done a, db)

-- Any end but a result becomes another.
abbrev pub or_refuse_of : {A : Type 0} → Refusal → Outcome A × Db → Outcome A × Db
or_refuse_of e (done a, db) = (done a, db)
or_refuse_of e (refused e', db) = (refused e, db)

unfoldable pub or_refuse : {A : Type 0} → Act A → Refusal → Act A
or_refuse m e db = or_refuse_of e (m db)
