-- ===== src/Store/Rows.antt =====
-- internal/store/store.go: unique keys of a table, under the updates and deletions of its rows. A key
-- that is missing is NULL, which equals nothing.
use cliproxy_portal.Common.{ℕ, ◌≡◌, refl, ◌⊎◌, inl, inr, Bool, true, false, ◌||◌, Option, none, some, List, [], ◌∷◌, arith, if◌then◌else◌, Bool-cases, same}
use cliproxy_portal.Store.Statements.{any_row, first_row, update_rows, delete_rows}

unfoldable pub clashes : (a b : Option (List ℕ)) → Bool
clashes none b = false
clashes (some a) none = false
clashes (some a) (some b) = same a b

pub clashes-none : (a : Option (List ℕ)) → clashes a none ≡ false
unfolding clashes
clashes-none none = refl
clashes-none (some a) = refl

module _ {A : Type 0} (key : A → Option (List ℕ)) where
  -- Whether a row has the key.
  unfoldable pub used : Option (List ℕ) → List A → Bool
  used k rows = any_row (λ w. clashes k (key w)) rows

  unfoldable pub IsUnique : List A → Type 0
  IsUnique [] = Unit
  IsUnique (row ∷ rows) = (used (key row) rows ≡ false) × IsUnique rows

  used-cons :
      (k : Option (List ℕ)) (row : A) (rows : List A)
      → used k (row ∷ rows) ≡ clashes k (key row) || used k rows
  unfolding used
  used-cons k row rows = refl

  -- A change keeps a row's key or takes it away.
  pub Loses : (A → Bool) → (A → A) → Type 0
  Loses test change =
      (row : A) → test row ≡ true → (key (change row) ≡ key row) ⊎ (key (change row) ≡ none)

  abbrev change_row : (A → Bool) → (A → A) → A → A
  change_row test change row = if test row then change row else row

  key-change :
      (test : A → Bool) (change : A → A) → Loses test change → (row : A)
      → (key (change_row test change row) ≡ key row) ⊎ (key (change_row test change row) ≡ none)
  unfolding Loses
  key-change test change loses row = elim (Bool-cases (test row)) [
    | inl e ↦ rw e (loses row e)
    | inr e ↦ rw e (inl refl)
  ]

  clashes-change :
      (test : A → Bool) (change : A → A) → Loses test change → (k : Option (List ℕ)) (row : A)
      → clashes k (key row) ≡ false → clashes k (key (change_row test change row)) ≡ false
  clashes-change test change loses k row h = elim (key-change test change loses row) [
    | inl e ↦ rw e h
    | inr e ↦ rw e (clashes-none k)
  ]

  used-update :
      (test : A → Bool) (change : A → A) → Loses test change → (k : Option (List ℕ)) (rows : List A)
      → used k rows ≡ false → used k (update_rows test change rows) ≡ false
  unfolding used
  used-update test change loses k [] h = refl
  used-update test change loses k (row ∷ rows) h =
      let rest = used-update test change loses k rows (ground (arith, h)) in
      let here = clashes-change test change loses k row (ground (arith, h)) in
      ground (arith, here, rest)

  used-none : (rows : List A) → used none rows ≡ false
  unfolding used clashes
  used-none [] = refl
  used-none (row ∷ rows) = used-none rows

  pub update-IsUnique :
      (test : A → Bool) (change : A → A) → Loses test change → (rows : List A)
      → IsUnique rows → IsUnique (update_rows test change rows)
  unfolding IsUnique
  update-IsUnique test change loses [] h = tt
  update-IsUnique test change loses (row ∷ rows) (h, hs) =
      (elim (key-change test change loses row) [
        | inl e ↦ rw e (used-update test change loses (key row) rows h)
        | inr e ↦ rw e (used-none (update_rows test change rows))
      ],
        update-IsUnique test change loses rows hs)

  pub delete-used :
      (test : A → Bool) (k : Option (List ℕ)) (rows : List A)
      → used k rows ≡ false → used k (delete_rows test rows) ≡ false
  unfolding used
  delete-used test k [] h = refl
  delete-used test k (row ∷ rows) h =
      let rest = delete-used test k rows (ground (arith, h)) in ground (arith, rest, h)

  pub delete-IsUnique :
      (test : A → Bool) (rows : List A) → IsUnique rows → IsUnique (delete_rows test rows)
  unfolding IsUnique
  delete-IsUnique test [] h = tt
  delete-IsUnique test (row ∷ rows) (h, hs) =
      elim (Bool-cases (test row)) [
        | inl e ↦ rw e (delete-IsUnique test rows hs)
        | inr e ↦ rw e (delete-used test (key row) rows h, delete-IsUnique test rows hs)
      ]
