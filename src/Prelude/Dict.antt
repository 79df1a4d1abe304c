-- ===== src/Prelude/Dict.antt =====
-- `Map` of the source, and an object used as one: an association list in insertion order.
-- A key that is set again keeps its place.
use Prim.Native.Nat.{suc, ◌≤◌}
use mathlib.Core.Path.{◌≡◌, refl}
use mathlib.Core.Bool.{Bool, true, false}
use mathlib.Core.List.{List, [], ◌∷◌}
use mathlib.Core.Option.{Option, none, some}
use native.Mathlib.Omega.{arith}
use pi_dotfiles.Prelude.Lists.{length, All, pick}

abbrev pub is_some {ℓ} : {A : Type ℓ} → Option A → Bool
is_some none = false
is_some (some a) = true

module _ {ℓ} {K V : Type ℓ} (d : Discrete K) where
  unfoldable pub get : K → List (K × V) → Option V
  get k [] = none
  get k ((j, v) ∷ m) = pick (d j k) (some v) (get k m)

  unfoldable pub set : K → V → List (K × V) → List (K × V)
  set k v [] = (k, v) ∷ []
  set k v ((j, w) ∷ m) = pick (d j k) ((j, v) ∷ m) ((j, w) ∷ set k v m)

  unfoldable pub delete : K → List (K × V) → List (K × V)
  delete k [] = []
  delete k ((j, v) ∷ m) = pick (d j k) (delete k m) ((j, v) ∷ delete k m)

  abbrev pub has : K → List (K × V) → Bool
  has k m = is_some (get k m)

  -- `for (const k of ks) m.delete(k)`
  unfoldable pub delete_all : List K → List (K × V) → List (K × V)
  delete_all [] m = m
  delete_all (k ∷ ks) m = delete_all ks (delete k m)

  -- `for (const k of ks) m.set(k, v)`
  unfoldable pub set_all : List K → V → List (K × V) → List (K × V)
  set_all [] v m = m
  set_all (k ∷ ks) v m = set_all ks v (set k v m)

  pub get-set :
      (k j : K) (v : V) (m : List (K × V)) → get j (set k v m) ≡ pick (d k j) (some v) (get j m)
  unfolding get set
  get-set k j v [] = refl
  get-set k j v ((i, w) ∷ m) = ground (arith, get-set k j v m)

  pub get-delete : (k j : K) (m : List (K × V)) → get j (delete k m) ≡ pick (d k j) none (get j m)
  unfolding get delete
  get-delete k j [] = ground arith
  get-delete k j ((i, w) ∷ m) = ground (arith, get-delete k j m)

  pub get-set_self : (k : K) (v : V) (m : List (K × V)) → get k (set k v m) ≡ some v
  get-set_self k v m = ground (arith, get-set k k v m)

  pub get-delete_self : (k : K) (m : List (K × V)) → get k (delete k m) ≡ none
  get-delete_self k m = ground (arith, get-delete k k m)

  pub length-set-le : (k : K) (v : V) (m : List (K × V)) → length (set k v m) ≤ suc (length m)
  unfolding set
  length-set-le k v [] = omega arith
  length-set-le k v ((i, w) ∷ m) = ground (arith, length-set-le k v m)

  pub length-delete-le : (k : K) (m : List (K × V)) → length (delete k m) ≤ length m
  unfolding delete
  length-delete-le k [] = omega arith
  length-delete-le k ((i, w) ∷ m) = ground (arith, length-delete-le k m)

  -- Deleting the first key makes the map smaller.
  pub length-delete_head-lt :
      (k : K) (v : V) (m : List (K × V)) → length (delete k ((k, v) ∷ m)) ≤ length m
  unfolding delete
  length-delete_head-lt k v m = ground (arith, length-delete-le k m)

  module _ {κ} (P : K × V → Type κ) where
    pub set-All :
        (k : K) (v : V) (m : List (K × V)) → ((j : K) → P (j, v)) → All P m → All P (set k v m)
    unfolding set
    set-All k v [] p h = (p k, tt)
    set-All k v ((i, w) ∷ m) p h = ground (arith, p i, set-All k v m p h.1)

    pub delete-All : (k : K) (m : List (K × V)) → All P m → All P (delete k m)
    unfolding delete
    delete-All k [] h = tt
    delete-All k ((i, w) ∷ m) h = ground (arith, delete-All k m h.1)
