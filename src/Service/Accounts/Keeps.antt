-- ===== src/Service/Accounts/Keeps.antt =====
-- internal/service/accounts.go: what every statement keeps of the tables, every operation keeps. The
-- phones that the operations write are normalized.
use cliproxy_portal.Common.{ℕ, ◌≡◌, refl, Bool, true, Option, none, some, List, [], ◌∷◌, arith}
use cliproxy_portal.Security.{Functions, is_phone, if_phone, normalize_phone}
use cliproxy_portal.Store.{User, Session, PasswordReset, Db, AuditEvent, Refusal, Outcome, done, refused, Act, ◌>>=◌, from_option}
use cliproxy_portal.Store.Statements.{Statement, execute, ask, insert_user, set_user_phone, replace_reset, insert_audit}
use cliproxy_portal.Store.Keeps.{IsOfTables, KeepsEffect, Keeps, give-Keeps, refuse-Keeps, require-Keeps, from_option-Keeps, bind-Keeps, attempt-Keeps, or_refuse-Keeps, if-Keeps, ask-Keeps, execute-Keeps}
use cliproxy_portal.Service.Accounts.{minute, ms, register, resubmit, authenticate, create_session, resolve_session, logout, change_password, create_admin, or_zero, policy_or_none, code_hash, reset_row, generate_reset, reset_password, approve, reject, change_phone, audit}
use cliproxy_portal.Service.Accounts.Calls.{Call, register_call, resubmit_call, authenticate_call, create_session_call, resolve_session_call, logout_call, change_password_call, create_admin_call, generate_reset_call, reset_password_call, approve_call, reject_call, change_phone_call, statement, run_call, run_calls}

-- A phone that is written is normalized, and no reset is written.
abbrev pub Fits : Statement → Type 0
Fits (insert_user u) = elim (u.phone) as (λ x. Type 0) [ none ↦ Unit | some phone ↦ is_phone phone ≡ true ]
Fits (set_user_phone id phone now) = is_phone phone ≡ true
Fits (replace_reset v) = ⊥
Fits s = Unit

if_phone-is_phone :
    (text phone : List ℕ) → if_phone text ≡ some phone → is_phone phone ≡ true
unfolding if_phone
if_phone-is_phone text phone e = ground arith

pub normalize_phone-is_phone :
    (f : Functions) (input phone : List ℕ)
    → normalize_phone f input ≡ some phone → is_phone phone ≡ true
unfolding normalize_phone
normalize_phone-is_phone f input phone e = search if_phone-is_phone

pub record IsKept (I : Db → Type 0) : Type 0 where
  pub tables : IsOfTables I
  pub effects : (s : Statement) → Fits s → KeepsEffect I s

module _ (I : Db → Type 0) (kept : IsKept I) where
  statement-Keeps : (s : Statement) → Fits s → Keeps I (execute s)
  statement-Keeps s fits = execute-Keeps kept.tables s (kept.effects s fits)

  query-Keeps : {A : Type 0} → (query : Db → Option A) → Keeps I (ask query)
  query-Keeps query = ask-Keeps kept.tables query

  audit-Keeps : (e : AuditEvent) → Keeps I (audit e)
  audit-Keeps e = bind-Keeps (statement-Keeps (insert_audit e) tt) (λ n. give-Keeps tt)

module _ {I : Db → Type 0} where
  known-Keeps :
      {A B : Type 0} (o : Option A) (e : Refusal) (k : A → Act B)
      → ((a : A) → o ≡ some a → Keeps I (k a))
      → Keeps I (from_option o e >>= k)
  unfolding ◌>>=◌ from_option
  known-Keeps none e k keeps = record { at = λ db h. h }
  known-Keeps (some a) e k keeps = record { at = λ db h. (keeps a refl).at db h }

  none-Keeps :
      {A B : Type 0} (e : Refusal) (k : A → Act B) → Keeps I (from_option none e >>= k)
  none-Keeps e k = known-Keeps none e k (λ a found. absurd cc)

  some-Keeps :
      {A B : Type 0} (a : A) (e : Refusal) (k : A → Act B) → Keeps I (k a)
      → Keeps I (from_option (some a) e >>= k)
  unfolding ◌>>=◌ from_option
  some-Keeps a e k keeps = record { at = λ db h. keeps.at db h }

  phone-Keeps :
      {B : Type 0} (f : Functions) (input : List ℕ) (e : Refusal) (k : List ℕ → Act B)
      → ((phone : List ℕ) → is_phone phone ≡ true → Keeps I (k phone))
      → Keeps I (from_option (normalize_phone f input) e >>= k)
  phone-Keeps f input e k keeps =
      known-Keeps (normalize_phone f input) e k
        (λ phone found. keeps phone (normalize_phone-is_phone f input phone found))

-- What the predicate asks of a reset that is issued.
pub Writes : (Db → Type 0) → Functions → User → Option (List ℕ) → ℕ → Type 0
Writes I f target none now = Unit
Writes I f target (some code) now = KeepsEffect I (replace_reset (reset_row f code target now))

end_or_zero : (I : Db → Type 0) (end : Outcome ℕ × Db) → I end.1 → I (or_zero end).1
end_or_zero I (done n, db) h = h
end_or_zero I (refused e, db) h = h

ruleset act_rules =
    (bind-Keeps, require-Keeps, from_option-Keeps, give-Keeps, refuse-Keeps, if-Keeps,
      attempt-Keeps, or_refuse-Keeps)

module _ (I : Db → Type 0) (kept : IsKept I) (f : Functions) where
  register-Keeps : (p n w : List ℕ) (v : ℕ) (ip : List ℕ) (id : Option (List ℕ)) (now : ℕ) → Keeps I (register f p n w v ip id now)
  unfolding register
  register-Keeps p n w v ip id now =
      bind-Keeps (query-Keeps I kept _) λ accepting.
      bind-Keeps (require-Keeps _ _) λ _.
      phone-Keeps f p _ _ λ phone fits.
      search
        (act_rules, query-Keeps I kept, statement-Keeps I kept, audit-Keeps I kept, fits) depth 40

  resubmit-Keeps : (u : User) (n w : List ℕ) (v : ℕ) (ip : List ℕ) (now : ℕ) → Keeps I (resubmit f u n w v ip now)
  unfolding resubmit
  resubmit-Keeps u n w v ip now =
      search
        (act_rules, query-Keeps I kept, statement-Keeps I kept, audit-Keeps I kept) depth 40

  authenticate-Keeps : (p w : List ℕ) (now : ℕ) → Keeps I (authenticate f p w now)
  unfolding authenticate
  authenticate-Keeps p w now =
      search
        (act_rules, query-Keeps I kept, statement-Keeps I kept, audit-Keeps I kept) depth 40

  create_session-Keeps : (u : User) (ip agent : List ℕ) (r : Bool) (t : Option (List ℕ)) (now : ℕ) → Keeps I (create_session f u ip agent r t now)
  unfolding create_session
  create_session-Keeps u ip agent r t now =
      search
        (act_rules, query-Keeps I kept, statement-Keeps I kept, audit-Keeps I kept) depth 40

  resolve_session-Keeps : (t : List ℕ) (now : ℕ) → Keeps I (resolve_session f t now)
  unfolding resolve_session
  resolve_session-Keeps t now =
      search
        (act_rules, query-Keeps I kept, statement-Keeps I kept, audit-Keeps I kept) depth 40

  logout-Keeps : (token : List ℕ) → Keeps I (logout f token)
  unfolding logout
  logout-Keeps token =
      if-Keeps _ (give-Keeps _) (bind-Keeps (statement-Keeps I kept _ tt) (λ n. give-Keeps _))

  change_password-Keeps : (u : User) (c n s ip : List ℕ) (now : ℕ) → Keeps I (change_password f u c n s ip now)
  unfolding change_password
  change_password-Keeps u c n s ip now =
      search
        (act_rules, query-Keeps I kept, statement-Keeps I kept, audit-Keeps I kept) depth 40

  policy-Keeps : Keeps I policy_or_none
  unfolding policy_or_none
  policy-Keeps =
      record { at = λ db h. end_or_zero I _ ((query-Keeps I kept (λ db. db.latest_policy)).at db h) }

  create_admin-Keeps : (p n w : List ℕ) (actor : Option User) (ip : List ℕ) (id : Option (List ℕ)) (now : ℕ) → Keeps I (create_admin f p n w actor ip id now)
  unfolding create_admin
  create_admin-Keeps p n w actor ip id now =
      phone-Keeps f p _ _ λ phone fits.
      search
        (act_rules, query-Keeps I kept, statement-Keeps I kept, audit-Keeps I kept, policy-Keeps, fits) depth 40

  generate_reset-Keeps :
      (a t : User) (ip : List ℕ) (code : Option (List ℕ)) (now : ℕ)
      → Writes I f t code now
      → Keeps I (generate_reset f a t ip code now)
  unfolding generate_reset Writes
  generate_reset-Keeps a t ip none now writes = none-Keeps _ _
  generate_reset-Keeps a t ip (some code) now writes =
      some-Keeps code _ _
        (bind-Keeps (execute-Keeps kept.tables _ writes)
          (λ n. bind-Keeps (attempt-Keeps (audit-Keeps I kept _)) (λ _. give-Keeps code)))

  reset_password-Keeps : (p c w ip : List ℕ) (now : ℕ) → Keeps I (reset_password f p c w ip now)
  unfolding reset_password
  reset_password-Keeps p c w ip now =
      search
        (act_rules, query-Keeps I kept, statement-Keeps I kept, audit-Keeps I kept) depth 40

  approve-Keeps : (a t : User) (note ip : List ℕ) (now : ℕ) → Keeps I (approve f a t note ip now)
  unfolding approve
  approve-Keeps a t note ip now =
      search
        (act_rules, query-Keeps I kept, statement-Keeps I kept, audit-Keeps I kept) depth 40

  reject-Keeps : (a t : User) (reason ip : List ℕ) (now : ℕ) → Keeps I (reject f a t reason ip now)
  unfolding reject
  reject-Keeps a t reason ip now =
      search
        (act_rules, query-Keeps I kept, statement-Keeps I kept, audit-Keeps I kept) depth 40

  change_phone-Keeps : (a t : User) (p ip : List ℕ) (now : ℕ) → Keeps I (change_phone f a t p ip now)
  unfolding change_phone
  change_phone-Keeps a t p ip now =
      bind-Keeps (require-Keeps _ _) λ _.
      phone-Keeps f p _ _ λ phone fits.
      search
        (act_rules, query-Keeps I kept, statement-Keeps I kept, audit-Keeps I kept, fits) depth 40


  -- What the predicate asks of a call.
  pub Allows : Call → Type 0
  Allows (generate_reset_call a t ip code now) = Writes I f t code now
  Allows (statement s) = KeepsEffect I s
  Allows call = Unit

  pub run_call-Keeps : (call : Call) → Allows call → (db : Db) → I db → I (run_call f call db)
  unfolding run_call Allows
  run_call-Keeps (register_call p n w v ip id now) ok db h = (register-Keeps p n w v ip id now).at db h
  run_call-Keeps (resubmit_call u n w v ip now) ok db h = (resubmit-Keeps u n w v ip now).at db h
  run_call-Keeps (authenticate_call p w now) ok db h = (authenticate-Keeps p w now).at db h
  run_call-Keeps (create_session_call u ip a r t now) ok db h =
      (create_session-Keeps u ip a r t now).at db h
  run_call-Keeps (resolve_session_call t now) ok db h = (resolve_session-Keeps t now).at db h
  run_call-Keeps (logout_call t) ok db h = (logout-Keeps t).at db h
  run_call-Keeps (change_password_call u c n s ip now) ok db h =
      (change_password-Keeps u c n s ip now).at db h
  run_call-Keeps (create_admin_call p n w a ip id now) ok db h =
      (create_admin-Keeps p n w a ip id now).at db h
  run_call-Keeps (generate_reset_call a t ip c now) ok db h =
      (generate_reset-Keeps a t ip c now ok).at db h
  run_call-Keeps (reset_password_call p c w ip now) ok db h = (reset_password-Keeps p c w ip now).at db h
  run_call-Keeps (approve_call a t note ip now) ok db h = (approve-Keeps a t note ip now).at db h
  run_call-Keeps (reject_call a t reason ip now) ok db h = (reject-Keeps a t reason ip now).at db h
  run_call-Keeps (change_phone_call a t p ip now) ok db h = (change_phone-Keeps a t p ip now).at db h
  run_call-Keeps (statement s) ok db h = (execute-Keeps kept.tables s ok).at db h

  pub AllowsAll : List Call → Type 0
  AllowsAll [] = Unit
  AllowsAll (call ∷ calls) = Allows call × AllowsAll calls

  pub run_calls-Keeps :
      (calls : List Call) → AllowsAll calls → (db : Db) → I db → I (run_calls f calls db)
  unfolding run_calls AllowsAll
  run_calls-Keeps [] ok db h = h
  run_calls-Keeps (call ∷ calls) (ok, oks) db h =
      run_calls-Keeps calls oks (run_call f call db) (run_call-Keeps call ok db h)
