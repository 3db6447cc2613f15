-- ===== src/Common/JsMap.antt =====
-- A JavaScript `Map` with text keys, as the list of its entries in the order of insertion.
use Prim.Native.Nat.{◌+◌, ◌≤◌}
use Prim.Native.String.{String}
use mathlib.Core.Path.{◌≡◌, refl}
use mathlib.Core.List.{List, [], ◌∷◌}
use mathlib.Core.Option.{Option, none, some}
use native.Mathlib.Omega.{arith}
use text.Mathlib.Text.{◌==◌ as str_eq}
use text.Mathlib.TextEquality.{eq_iff}
use urlfy_cc.Common.Tests.{if◌then◌else◌}
use urlfy_cc.Common.Lists.{length}

module _ {ℓ} {V : Type ℓ} where
  unfoldable pub get : String → List (String × V) → Option V
  get k [] = none
  get k ((j, v) ∷ m) = if str_eq j k then some v else get k m

  -- `map.set(k, v)`: the entry keeps its place, and a new one comes last.
  unfoldable pub set : String → V → List (String × V) → List (String × V)
  set k v [] = (k, v) ∷ []
  set k v ((j, w) ∷ m) = if str_eq j k then (j, v) ∷ m else (j, w) ∷ set k v m

  -- `map.delete(k)`
  unfoldable pub delete : String → List (String × V) → List (String × V)
  delete k [] = []
  delete k ((j, w) ∷ m) = if str_eq j k then delete k m else (j, w) ∷ delete k m

  -- `map.keys().next().value`
  abbrev pub first_key : List (String × V) → Option String
  first_key [] = none
  first_key ((j, w) ∷ m) = some j

  pub get-set :
      (k j : String) (v : V) (m : List (String × V))
      → get j (set k v m) ≡ (if str_eq k j then some v else get j m)
  unfolding get set
  get-set k j v [] = refl
  get-set k j v ((i, w) ∷ m) = ground (arith, eq_iff k j, eq_iff i k, eq_iff i j, get-set k j v m)

  pub get-delete :
      (k j : String) (m : List (String × V))
      → get j (delete k m) ≡ (if str_eq k j then none else get j m)
  unfolding get delete
  get-delete k j [] = ground arith
  get-delete k j ((i, w) ∷ m) = ground (arith, eq_iff k j, eq_iff i k, eq_iff i j, get-delete k j m)

  pub length-set-le :
      (k : String) (v : V) (m : List (String × V)) → length (set k v m) ≤ length m + 1
  unfolding set
  length-set-le k v [] = omega arith
  length-set-le k v ((j, w) ∷ m) = ground (arith, length-set-le k v m)

  -- A key that is there keeps the size.
  pub length-set-eq_of_get :
      (k : String) (v w : V) (m : List (String × V))
      → get k m ≡ some w
      → length (set k v m) ≡ length m
  unfolding get set
  length-set-eq_of_get k v w [] h = ground arith
  length-set-eq_of_get k v w ((j, u) ∷ m) h = ground (arith, length-set-eq_of_get k v w m)

  pub length-delete-le : (k : String) (m : List (String × V)) → length (delete k m) ≤ length m
  unfolding delete
  length-delete-le k [] = omega arith
  length-delete-le k ((j, w) ∷ m) = ground (arith, length-delete-le k m)

  pub length-delete-lt_of_first :
      (j : String) (w : V) (m : List (String × V)) → length (delete j ((j, w) ∷ m)) ≤ length m
  unfolding delete
  length-delete-lt_of_first j w m = ground (arith, eq_iff j j, length-delete-le j m)
