-- ===== src/Service/Accounts/Calls.antt =====
-- internal/service/accounts.go: the operations as calls, and any sequence of them. The other parts of
-- the portal change the tables by single statements.
use cliproxy_portal.Common.{ℕ, Bool, Option, List, [], ◌∷◌}
use cliproxy_portal.Security.{Functions, is_phone}
use cliproxy_portal.Store.{User, PasswordReset, Db, Act}
use cliproxy_portal.Store.Statements.{Statement, execute, insert_user, set_user_phone, replace_reset}
use cliproxy_portal.Service.Accounts.{register, resubmit, authenticate, create_session, resolve_session, logout, change_password, create_admin, generate_reset, reset_password, approve, reject, change_phone}

pub data Call : Type 0 where
  register_call :
      (phone name password : List ℕ) (policy : ℕ) (ip : List ℕ) (id : Option (List ℕ)) (now : ℕ)
      → Call
  resubmit_call : (u : User) (name password : List ℕ) (policy : ℕ) (ip : List ℕ) (now : ℕ) → Call
  authenticate_call : (phone password : List ℕ) (now : ℕ) → Call
  create_session_call :
      (u : User) (ip agent : List ℕ) (remember : Bool) (token : Option (List ℕ)) (now : ℕ) → Call
  resolve_session_call : (token : List ℕ) (now : ℕ) → Call
  logout_call : (token : List ℕ) → Call
  change_password_call : (u : User) (current next session ip : List ℕ) (now : ℕ) → Call
  create_admin_call :
      (phone name password : List ℕ) (actor : Option User) (ip : List ℕ) (id : Option (List ℕ))
      (now : ℕ)
      → Call
  generate_reset_call :
      (actor target : User) (ip : List ℕ) (code : Option (List ℕ)) (now : ℕ) → Call
  reset_password_call : (phone code password ip : List ℕ) (now : ℕ) → Call
  approve_call : (actor target : User) (note ip : List ℕ) (now : ℕ) → Call
  reject_call : (actor target : User) (reason ip : List ℕ) (now : ℕ) → Call
  change_phone_call : (actor target : User) (phone ip : List ℕ) (now : ℕ) → Call
  statement : Statement → Call

module _ (f : Functions) where
  -- The tables behind a call.
  unfoldable pub run_call : Call → Db → Db
  run_call (register_call p n w v ip id now) db = (register f p n w v ip id now db).1
  run_call (resubmit_call u n w v ip now) db = (resubmit f u n w v ip now db).1
  run_call (authenticate_call p w now) db = (authenticate f p w now db).1
  run_call (create_session_call u ip a r t now) db = (create_session f u ip a r t now db).1
  run_call (resolve_session_call t now) db = (resolve_session f t now db).1
  run_call (logout_call t) db = (logout f t db).1
  run_call (change_password_call u c n s ip now) db = (change_password f u c n s ip now db).1
  run_call (create_admin_call p n w a ip id now) db = (create_admin f p n w a ip id now db).1
  run_call (generate_reset_call a t ip c now) db = (generate_reset f a t ip c now db).1
  run_call (reset_password_call p c w ip now) db = (reset_password f p c w ip now db).1
  run_call (approve_call a t note ip now) db = (approve f a t note ip now db).1
  run_call (reject_call a t reason ip now) db = (reject f a t reason ip now db).1
  run_call (change_phone_call a t p ip now) db = (change_phone f a t p ip now db).1
  run_call (statement s) db = (execute s db).1

  unfoldable pub run_calls : List Call → Db → Db
  run_calls [] db = db
  run_calls (call ∷ calls) db = run_calls calls (run_call call db)
