-- ===== src/Base/Maps.antt =====
-- `std::unordered_map` as an association list: `find`, `operator[]`, `emplace`, `erase`, `size`.
use kvpaxos.Base.Tests.{if◌then◌else◌, is_some}
use mathlib.Core.Logic.{ite}
use mathlib.Core.Path.{◌≡◌, refl}
use mathlib.Core.List.{List, [], ◌∷◌}
use mathlib.Core.Option.{Option, none, some}
use Prim.Native.Nat.{suc}
use kvpaxos.Base.Lists.{length}
use native.Mathlib.Omega.{arith}

-- A key type of the maps: its equality, as `std::hash` and `==` give it.
pub record Key {ℓ} (K : Type ℓ) : Type ℓ where
  pub same : Discrete K

abbrev pub Map {ℓ} : Type ℓ → Type ℓ → Type ℓ
Map K V = List (K × V)

module _ {ℓ} {K V : Type ℓ} ⦃key : Key K⦄ where
  -- `find`, and `at`, which throws where this is `none`.
  unfoldable pub find : K → Map K V → Option V
  find k [] = none
  find k ((j, v) ∷ m) = ite (key.same j k) (some v) (find k m)

  -- `m[k] = v`
  unfoldable pub assign : K → V → Map K V → Map K V
  assign k v [] = (k, v) ∷ []
  assign k v ((j, w) ∷ m) = ite (key.same j k) ((j, v) ∷ m) ((j, w) ∷ assign k v m)

  unfoldable pub erase : K → Map K V → Map K V
  erase k [] = []
  erase k ((j, w) ∷ m) = let rest = erase k m in ite (key.same j k) rest ((j, w) ∷ rest)

  -- `emplace` keeps a value that is there.
  unfoldable pub emplace : K → V → Map K V → Map K V
  emplace k v m = if is_some (find k m) then m else assign k v m

  pub find-nil : (k : K) → ◌≡◌ {A = Option V} (find k []) none
  unfolding find
  find-nil k = refl

  pub find-assign :
      (k j : K) (v : V) (m : Map K V)
      → find j (assign k v m) ≡ ite (key.same k j) (some v) (find j m)
  unfolding find assign
  find-assign k j v [] = refl
  find-assign k j v ((i, w) ∷ m) = ground (arith, find-assign k j v m)

  pub find-erase : (k j : K) (m : Map K V) → find j (erase k m) ≡ ite (key.same k j) none (find j m)
  unfolding find erase
  find-erase k j [] = ground arith
  find-erase k j ((i, w) ∷ m) = ground (arith, find-erase k j m)

  pub find-emplace :
      (k j : K) (v : V) (m : Map K V)
      → find j (emplace k v m)
        ≡ (if is_some (find j m) then find j m else ite (key.same k j) (some v) none)
  unfolding emplace
  find-emplace k j v m = ground (arith, find-assign k j v m)

  pub length-assign :
      (k : K) (v : V) (m : Map K V)
      → length (assign k v m) ≡ (if is_some (find k m) then length m else suc (length m))
  unfolding find assign
  length-assign k v [] = refl
  length-assign k v ((i, w) ∷ m) = ground (arith, length-assign k v m)
