-- ===== src/Prelude/KeySet.antt =====
-- `Set` of the source: a list without repetitions, in insertion order.
use Prim.Native.Nat.{suc, ◌≤◌, ◌<◌}
use mathlib.Core.Path.{◌≡◌, refl}
use mathlib.Core.Bool.{Bool, true, false}
use mathlib.Core.List.{List, [], ◌∷◌}
use native.Mathlib.Omega.{arith}
use pi_dotfiles.Prelude.Lists.{length, pick, All}

module _ {ℓ} {K : Type ℓ} (d : Discrete K) where
  unfoldable pub has : K → List K → Bool
  has k [] = false
  has k (j ∷ s) = pick (d j k) true (has k s)

  unfoldable pub add : K → List K → List K
  add k [] = k ∷ []
  add k (j ∷ s) = pick (d j k) (j ∷ s) (j ∷ add k s)

  unfoldable pub delete : K → List K → List K
  delete k [] = []
  delete k (j ∷ s) = pick (d j k) (delete k s) (j ∷ delete k s)

  pub has-add : (k j : K) (s : List K) → has j (add k s) ≡ pick (d k j) true (has j s)
  unfolding has add
  has-add k j [] = refl
  has-add k j (i ∷ s) = ground (arith, has-add k j s)

  pub has-delete : (k j : K) (s : List K) → has j (delete k s) ≡ pick (d k j) false (has j s)
  unfolding has delete
  has-delete k j [] = ground arith
  has-delete k j (i ∷ s) = ground (arith, has-delete k j s)

  pub length-add-le : (k : K) (s : List K) → length (add k s) ≤ suc (length s)
  unfolding add
  length-add-le k [] = omega arith
  length-add-le k (i ∷ s) = ground (arith, length-add-le k s)

  pub length-delete-le : (k : K) (s : List K) → length (delete k s) ≤ length s
  unfolding delete
  length-delete-le k [] = omega arith
  length-delete-le k (i ∷ s) = ground (arith, length-delete-le k s)

  -- Deleting the oldest key makes the set smaller.
  pub length-delete_head-lt : (k : K) (s : List K) → length (delete k (k ∷ s)) ≤ length s
  unfolding delete
  length-delete_head-lt k s = ground (arith, length-delete-le k s)

  unfoldable pub IsDistinct : List K → Type 0
  IsDistinct [] = Unit
  IsDistinct (k ∷ s) = (has k s ≡ false) × IsDistinct s

  pub add-IsDistinct : (k : K) (s : List K) → IsDistinct s → IsDistinct (add k s)
  unfolding IsDistinct has add
  add-IsDistinct k [] h = (refl, tt)
  add-IsDistinct k (j ∷ s) h = ground (arith, has-add k j s, add-IsDistinct k s h.1)

  pub add-All {κ} : (P : K → Type κ) (k : K) (s : List K) → P k → All P s → All P (add k s)
  unfolding add
  add-All P k [] p a = (p, tt)
  add-All P k (j ∷ s) p (first, others) = ground (arith, p, first, add-All P k s p others)

  pub length-delete-lt : (k : K) (s : List K) → has k s ≡ true → length (delete k s) < length s
  unfolding has delete
  length-delete-lt k [] h = absurd cc
  length-delete-lt k (j ∷ s) h = ground (arith, length-delete-le k s, length-delete-lt k s)

  -- The elements of a set without this key are in what remains after the key is deleted.
  delete_other :
      (k : K) (s from : List K)
      → has k s ≡ false
      → All (λ j. has j from ≡ true) s
      → All (λ j. has j (delete k from) ≡ true) s
  unfolding has
  delete_other k [] from h a = tt
  delete_other k (j ∷ s) from h (first, others) =
      ground (arith, first, has-delete k j from, delete_other k s from)

  -- A set whose elements are all in another list is no longer than that list.
  pub length-distinct-le :
      (s from : List K) → IsDistinct s → All (λ j. has j from ≡ true) s → length s ≤ length from
  unfolding IsDistinct
  length-distinct-le [] from h a = omega arith
  length-distinct-le (k ∷ s) from (new, distinct) (first, others) = omega (
    arith,
    length-distinct-le s (delete k from) distinct (delete_other k s from new others),
    length-delete-lt k from first,
  )

  -- If moreover one element of that list is missing, the set is shorter.
  pub length-distinct-lt :
      (k : K) (s from : List K)
      → IsDistinct s
      → All (λ j. has j from ≡ true) s
      → has k s ≡ false
      → has k from ≡ true
      → length s < length from
  length-distinct-lt k s from distinct inside missing there = omega (
    arith,
    length-distinct-le s (delete k from) distinct (delete_other k s from missing inside),
    length-delete-lt k from there,
  )
