-- ===== src/Gateway/Identity.antt =====
-- internal/gateway/identity_spool.go, identity_json_stream.go and identity_text_stream.go: the
-- removal of an identity sentence from the instructions of a request, on the bytes of its body.
pub mod Spool
pub mod Runes
pub mod Text
pub mod Scanner
pub mod Fields
pub mod Patches
pub mod Compat
mod Tests
use cliproxy_portal.Common.{ℕ, String, ◌≡◌, refl, Bool, true, false, ◌&&◌, List, [], ◌∷◌, ◌==◌}

pub record Span : Type 0 where
  pub start : ℕ
  pub end : ℕ

-- `io.EOF`, `io.ErrUnexpectedEOF`, a read that failed otherwise, `errIdentityJSON`, the errors of the
-- text's own (an escape, a match that ends within a character), a file that could not be created. A
-- model that runs out of fuel says so.
pub data ScanError : Type 0 where
  end_of_file unexpected_end read_failed invalid bad_text no_file out_of_fuel : ScanError

pub data Result {ℓ} (A : Type ℓ) : Type ℓ where
  ok : A → Result A
  failed : ScanError → Result A

-- The errors that the input is the reason of, or a read that fails.
abbrev pub Own : Bool → ScanError → Type 0
Own broken end_of_file = Unit {0}
Own broken invalid = Unit {0}
Own broken read_failed = broken ≡ true
Own broken unexpected_end = Unit {0}
Own broken bad_text = Unit {0}
Own broken no_file = ⊥
Own broken out_of_fuel = ⊥

infixl 1 ◌>>=◌
abbrev pub ◌>>=◌ {ν μ} :
    {Before : Type ν} {After : Type μ} → Result Before → (Before → Result After) → Result After
failed e >>= next = failed e
ok value >>= next = next value

-- A chain that succeeds has succeeded at its first step.
pub >>=-eq-ok {ν μ} :
    {Before : Type ν} {After : Type μ} {last : After} (step : Result Before)
    (next : Before → Result After)
    → (step >>= next) ≡ ok last
    → (value : Before) × (step ≡ ok value) × (next value ≡ ok last)
>>=-eq-ok (failed e) next h = cc
>>=-eq-ok (ok value) next h = (value, refl, h)

pub failed-ne-ok {ℓ κ} : {A : Type ℓ} {C : Type κ} {e : ScanError} {a : A} → failed e ≡ ok a → C
failed-ne-ok h = cc

-- An error of the input is one however the reads end.
pub Own-any : (broken : Bool) (e : ScanError) → Own false e → Own broken e
Own-any broken end_of_file h = tt
Own-any broken invalid h = tt
Own-any true read_failed h = cc
Own-any false read_failed h = h
Own-any broken unexpected_end h = tt
Own-any broken bad_text h = tt
Own-any broken no_file h = h
Own-any broken out_of_fuel h = h
