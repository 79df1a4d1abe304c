-- ===== src/Prelude/Keys.antt =====
-- The keys of an association list, as a set.
use mathlib.Core.Path.{◌≡◌, refl}
use mathlib.Core.List.{List, [], ◌∷◌}
use native.Mathlib.Omega.{arith}
use pi_dotfiles.Prelude.Lists.{length}
use pi_dotfiles.Prelude.Dict
use pi_dotfiles.Prelude.KeySet

abbrev pub keys : {K V : Type 0} → List (K × V) → List K
keys [] = []
keys ((k, v) ∷ m) = k ∷ keys m

pub length-keys : {K V : Type 0} (m : List (K × V)) → length (keys m) ≡ length m
length-keys [] = refl
length-keys ((k, v) ∷ m) = omega (arith, length-keys m)

module _ {K V : Type 0} (d : Discrete K) where
  pub has-keys : (k : K) (m : List (K × V)) → KeySet.has d k (keys m) ≡ Dict.has d k m
  unfolding KeySet.has Dict.get
  has-keys k [] = refl
  has-keys k ((j, v) ∷ m) = ground (arith, has-keys k m)

  pub keys-set :
      (k : K) (v : V) (m : List (K × V)) → keys (Dict.set d k v m) ≡ KeySet.add d k (keys m)
  unfolding KeySet.add Dict.set
  keys-set k v [] = refl
  keys-set k v ((j, w) ∷ m) = ground (arith, keys-set k v m)
