-- ===== src/Store/Keeps.antt =====
-- internal/store/store.go: what every statement keeps of the tables, a program of statements keeps;
-- and what a program that ends with a result came through.
use cliproxy_portal.Common.{ℕ, ◌≡◌, refl, inl, inr, Bool, true, false, Option, none, some, List, if◌then◌else◌, Bool-cases}
use cliproxy_portal.Store.{Db, Refusal, unavailable, not_found, Outcome, done, refused, Act, give, refuse, continue_with, ◌>>=◌, attempt, require, from_option, or_refuse_of, or_refuse}
use cliproxy_portal.Store.Statements.{Statement, effect, execute, ask, rows_of, row_found, next_answer}

-- A predicate that does not look at the answers to come.
pub IsOfTables : (Db → Type 0) → Type 0
IsOfTables I = (db : Db) (answers : List Bool) → I db → I (record db { answers = answers })

module _ (I : Db → Type 0) where
  pub KeepsEffect : Statement → Type 0
  KeepsEffect s = (db db' : Db) (n : ℕ) → I db → effect s db ≡ some (n, db') → I db'

pub record Keeps (I : Db → Type 0) {A : Type 0} (m : Act A) : Type 0 where
  pub at : (db : Db) → I db → I (m db).1

pub give-Keeps : {I : Db → Type 0} {A : Type 0} → (a : A) → Keeps I (give a)
unfolding give
give-Keeps a = record { at = λ db h. h }

pub refuse-Keeps : {I : Db → Type 0} {A : Type 0} → (e : Refusal) → Keeps I (refuse {A = A} e)
unfolding refuse
refuse-Keeps e = record { at = λ db h. h }

pub require-Keeps : {I : Db → Type 0} → (b : Bool) (e : Refusal) → Keeps I (require b e)
unfolding require
require-Keeps true e = record { at = λ db h. h }
require-Keeps false e = record { at = λ db h. h }

pub from_option-Keeps :
    {I : Db → Type 0} {A : Type 0} → (o : Option A) (e : Refusal) → Keeps I (from_option o e)
unfolding from_option
from_option-Keeps none e = record { at = λ db h. h }
from_option-Keeps (some a) e = record { at = λ db h. h }

module _ (I : Db → Type 0) where
  end-Keeps :
      {A : Type 0} → (e : Refusal) (end : Outcome A × Db) → I end.1 → I (or_refuse_of e end).1
  end-Keeps e (done a, db) h = h
  end-Keeps e (refused e', db) h = h

  found-Keeps :
      {A : Type 0} (o : Option A) (db : Db)
      → I db
      → I (row_found db o).1
  found-Keeps none db x = x
  found-Keeps (some a) db x = x

  rows-Keeps :
      (s : Statement) → KeepsEffect I s → (db : Db) → I db → (o : Option (ℕ × Db))
      → effect s db ≡ o → I (rows_of db o).1
  unfolding KeepsEffect
  rows-Keeps s keeps db h none e = h
  rows-Keeps s keeps db h (some (n, db')) e = keeps db db' n h e

module _ {I : Db → Type 0} where
  continue-Keeps :
      {A B : Type 0} (k : A → Act B) → ((a : A) → Keeps I (k a)) → (end : Outcome A × Db)
      → I end.1 → I (continue_with k end).1
  continue-Keeps k keeps (refused e, db) h = h
  continue-Keeps k keeps (done a, db) h = (keeps a).at db h

  pub bind-Keeps :
      {A B : Type 0} {m : Act A} {k : A → Act B} → Keeps I m → ((a : A) → Keeps I (k a))
      → Keeps I (m >>= k)
  unfolding ◌>>=◌
  bind-Keeps {m = m} {k = k} first next =
      record { at = λ db h. continue-Keeps k next (m db) (first.at db h) }

  pub attempt-Keeps : {A : Type 0} {m : Act A} → Keeps I m → Keeps I (attempt m)
  unfolding attempt
  attempt-Keeps keeps = record { at = λ db h. keeps.at db h }

  pub or_refuse-Keeps :
      {A : Type 0} → (m : Act A) (e : Refusal) → Keeps I m → Keeps I (or_refuse m e)
  unfolding or_refuse
  or_refuse-Keeps m e keeps =
      record { at = λ db h. end-Keeps I e (m db) (keeps.at db h) }

  pub if-Keeps :
      {A : Type 0} (b : Bool) {m n : Act A} → Keeps I m → Keeps I n → Keeps I (if b then m else n)
  if-Keeps true hm hn = hm
  if-Keeps false hm hn = hn

  pub ask-Keeps : {A : Type 0} → IsOfTables I → (query : Db → Option A) → Keeps I (ask query)
  unfolding ask IsOfTables
  ask-Keeps of_tables query = record {
    at = λ db h.
      let answered = of_tables db (next_answer db.answers).1 h in
      let db' : Db = record db { answers = (next_answer db.answers).1 } in
      elim (Bool-cases (next_answer db.answers).0) [
        | inl e ↦ rw e (found-Keeps I (query db) db' answered)
        | inr e ↦ rw e answered
      ];
  }

  pub execute-Keeps : IsOfTables I → (s : Statement) → KeepsEffect I s → Keeps I (execute s)
  unfolding execute IsOfTables
  execute-Keeps of_tables s keeps = record {
    at = λ db h.
      let answered = of_tables db (next_answer db.answers).1 h in
      let db' : Db = record db { answers = (next_answer db.answers).1 } in
      elim (Bool-cases (next_answer db.answers).0) [
        | inl e ↦ rw e (rows-Keeps I s keeps db' answered (effect s db') refl)
        | inr e ↦ rw e answered
      ];
  }
