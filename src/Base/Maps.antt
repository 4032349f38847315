-- ===== src/Base/Maps.antt =====
-- Go's `map[string]T` as an association list, read by `lookup`. The order of the entries stands for
-- the order of an iteration, which Go leaves open.
use Prim.Native.String.{String}
use mathlib.Core.Path.{◌≡◌, refl}
use mathlib.Core.Logic.{inl, inr}
use mathlib.Core.Option.{Option, none, some}
use mathlib.Core.List.{List, [], ◌∷◌}
use native.Mathlib.Omega.{arith}
use text.Mathlib.Text.{◌==◌}
use text.Mathlib.TextEquality.{eq_iff}
use aitrigram.Base.Tests.{Bool-cases, if◌then◌else◌}

abbrev pub Map {ℓ} : Type ℓ → Type ℓ
Map V = List (String × V)

module _ {ℓ} {V : Type ℓ} where
  unfoldable pub lookup : (key : String) → Map V → Option V
  lookup key [] = none
  lookup key ((held, value) ∷ rest) = if held == key then some value else lookup key rest

  -- m[key] = new; a new key goes to the end.
  unfoldable pub insert : (key : String) (new : V) → Map V → Map V
  insert key new [] = (key, new) ∷ []
  insert key new ((held, value) ∷ rest) =
      if held == key then (key, new) ∷ rest else (held, value) ∷ insert key new rest

  -- for k, v := range src { dst[k] = v }
  unfoldable pub insert_all : Map V → Map V → Map V
  insert_all [] dst = dst
  insert_all ((k, v) ∷ src) dst = insert_all src (insert k v dst)

  pub lookup-nil : (k : String) → lookup k [] ≡ none
  unfolding lookup
  lookup-nil k = refl

  pub lookup-insert :
      (key asked : String) (new : V) (m : Map V)
      → lookup asked (insert key new m) ≡ (if key == asked then some new else lookup asked m)
  unfolding insert lookup
  lookup-insert key asked new [] = refl
  lookup-insert key asked new ((held, value) ∷ rest) =
      let ih = lookup-insert key asked new rest in
      ground (arith, ih, eq_iff held asked, eq_iff held key, eq_iff key asked)

  -- Among the keys of a map no key stands twice.
  abbrev pub HasUniqueKeys : Map V → Type ℓ
  HasUniqueKeys [] = Unit
  HasUniqueKeys ((k, v) ∷ m) = (lookup k m ≡ none) × HasUniqueKeys m

  abbrev pub or_else : Option V → Option V → Option V
  or_else none b = b
  or_else (some a) b = some a

  -- A write of all entries overrides, and leaves every other key.
  pub lookup-insert_all :
      (j : String) (src dst : Map V)
      → HasUniqueKeys src
      → lookup j (insert_all src dst) ≡ or_else (lookup j src) (lookup j dst)
  unfolding insert_all lookup
  lookup-insert_all j [] dst u = refl
  lookup-insert_all j ((k, v) ∷ src) dst (fresh, u) =
      ground
        (arith, eq_iff k j, lookup-insert k j v dst, lookup-insert_all j src (insert k v dst) u)

  pub insert-HasUniqueKeys :
      (k : String) (v : V) (m : Map V) → HasUniqueKeys m → HasUniqueKeys (insert k v m)
  unfolding insert lookup
  insert-HasUniqueKeys k v [] u = (refl, tt)
  insert-HasUniqueKeys k v ((j, w) ∷ m) (fresh, u) = elim (Bool-cases (j == k)) [
    | inl same ↦ rw same (rw (← (eq_iff j k).0 same) fresh, u)
    | inr other ↦ rw other (
      ground (arith, lookup-insert k j v m, eq_iff j k, eq_iff k j),
      insert-HasUniqueKeys k v m u,
    )
  ]
