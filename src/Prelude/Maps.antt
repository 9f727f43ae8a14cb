-- ===== src/Prelude/Maps.antt =====
-- Go maps with string keys, as association lists. `for range` visits a map in no fixed order: the
-- order of the list is that of one such visit, and theorems hold for every list.
use mathlib.Core.Path.{◌≡◌, refl}
use mathlib.Core.Logic.{◌≢◌}
use mathlib.Core.List.{List, [], ◌∷◌}
use mathlib.Core.Option.{Option, none, some}
use native.Mathlib.Omega.{arith}
use atol_sdk_go.Prelude.Tests.{if◌then◌else◌}
use atol_sdk_go.Prelude.Lists.{Member}
use atol_sdk_go.Prelude.Text.{Str, ◌==◌}

abbrev pub Map : Type 0 → Type 0
Map V = List (Str × V)

module _ {V : Type 0} where
  -- `v, ok := m[k]`
  unfoldable pub lookup : Str → Map V → Option V
  lookup wanted [] = none
  lookup wanted ((key, value) ∷ more) =
      let rest = lookup wanted more in if key == wanted then some value else rest

  -- `m[k] = v`
  unfoldable pub insert : Str → V → Map V → Map V
  insert k new [] = (k, new) ∷ []
  insert k new ((key, old) ∷ more) =
      let rest = insert k new more in if key == k then (k, new) ∷ more else (key, old) ∷ rest

  -- `delete(m, k)`
  unfoldable pub remove : Str → Map V → Map V
  remove k [] = []
  remove k ((j, w) ∷ m) = let rest = remove k m in if j == k then rest else (j, w) ∷ rest

  -- Every key is bound once, as in any Go map.
  abbrev pub Distinct : Map V → Type 0
  Distinct [] = Unit
  Distinct ((k, v) ∷ m) = (lookup k m ≡ none) × Distinct m

  -- Reading a key after a write.
  pub lookup-insert :
      (written wanted : Str) (new : V) (m : Map V)
      → lookup wanted (insert written new m)
        ≡ (if written == wanted then some new else lookup wanted m)
  unfolding lookup insert
  lookup-insert written wanted new [] = refl
  lookup-insert written wanted new (entry ∷ more) =
      ground (arith, lookup-insert written wanted new more)

  pub lookup-remove :
      (k j : Str) (m : Map V) → lookup j (remove k m) ≡ (if k == j then none else lookup j m)
  unfolding lookup remove
  lookup-remove k j [] = ground arith
  lookup-remove k j ((i, w) ∷ m) = ground (arith, lookup-remove k j m)

  pub insert-Distinct : (k : Str) (v : V) (m : Map V) → Distinct m → Distinct (insert k v m)
  unfolding insert lookup
  insert-Distinct k v [] h = (refl, tt)
  insert-Distinct k v ((i, w) ∷ m) h =
      ground (arith, insert-Distinct k v m h.1, lookup-insert k i v m)

  pub remove-Distinct : (k : Str) (m : Map V) → Distinct m → Distinct (remove k m)
  unfolding remove
  remove-Distinct k [] h = tt
  remove-Distinct k ((i, w) ∷ m) h = ground (arith, remove-Distinct k m h.1, lookup-remove k i m)

  pub Member_of_lookup : (k : Str) (v : V) (m : Map V) → lookup k m ≡ some v → Member (k, v) m
  unfolding lookup
  Member_of_lookup k v [] h = cc
  Member_of_lookup k v ((i, w) ∷ m) h = ground (arith, Member_of_lookup k v m)

  lookup_ne-none : (k : Str) (v : V) (m : Map V) → Member (k, v) m → lookup k m ≢ none
  unfolding lookup
  lookup_ne-none k v [] h = absurd h
  lookup_ne-none k v ((i, w) ∷ m) h = ground (arith, lookup_ne-none k v m)

  pub lookup_of_Member :
      (k : Str) (v : V) (m : Map V) → Distinct m → Member (k, v) m → lookup k m ≡ some v
  unfolding lookup
  lookup_of_Member k v [] d h = absurd h
  lookup_of_Member k v ((i, w) ∷ m) d h =
      ground (arith, lookup_of_Member k v m d.1, lookup_ne-none k v m)
