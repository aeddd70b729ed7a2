-- ===== src/Common/Maps.antt =====
-- A Go map with string keys, as an association list that holds each key once.
use Prim.Native.String.{String}
use mathlib.Core.Path.{◌≡◌}
use mathlib.Core.List.{List, [], ◌∷◌}
use mathlib.Core.Option.{Option, none, some}
use native.Mathlib.Omega.{arith}
use text.Mathlib.Text.{◌==◌ as str_eq}
use text.Mathlib.TextEquality.{eq_iff}
use package.cliproxy_portal.Common.Tests.{if◌then◌else◌}

module _ {ℓ} {V : Type ℓ} where
  unfoldable pub lookup : String → List (String × V) → Option V
  lookup key [] = none
  lookup key ((name, value) ∷ rest) =
      let later = lookup key rest in if str_eq name key then some value else later

  -- Go's `delete`: no entry of the key is left.
  unfoldable pub delete : String → List (String × V) → List (String × V)
  delete key [] = []
  delete key ((name, value) ∷ rest) =
      let others = delete key rest in if str_eq name key then others else (name, value) ∷ others

  -- The order of a Go map's entries is not the program's to know: a new value stands in front.
  unfoldable pub insert : String → V → List (String × V) → List (String × V)
  insert key value entries = (key, value) ∷ delete key entries

  pub lookup-delete :
      (deleted key : String) (entries : List (String × V))
      → lookup key (delete deleted entries)
        ≡ (if str_eq deleted key then none else lookup key entries)
  unfolding lookup delete
  lookup-delete deleted key [] = ground arith
  lookup-delete deleted key ((name, value) ∷ rest) = ground (
    arith,
    eq_iff deleted key,
    eq_iff name deleted,
    eq_iff name key,
    lookup-delete deleted key rest,
  )

  pub lookup-insert :
      (inserted key : String) (value : V) (entries : List (String × V))
      → lookup key (insert inserted value entries)
        ≡ (if str_eq inserted key then some value else lookup key entries)
  unfolding lookup insert
  lookup-insert inserted key value entries = ground (arith, lookup-delete inserted key entries)
