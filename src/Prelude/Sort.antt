-- ===== src/Prelude/Sort.antt =====
-- What a sort by a rank gives: the same elements, in the order of the rank.
use Prim.Native.Nat.{ℕ, zero, suc, ◌≤◌}
use mathlib.Core.Path.{◌≡◌, refl, ap}
use mathlib.Core.Bool.{Bool, true, false}
use mathlib.Core.List.{List, [], ◌∷◌, ◌++◌, Perm}
use mathlib.Core.List.Perm
use native.Mathlib.Omega.{arith}
use pi_dotfiles.Prelude.Lists.{All, length, take, drop, insert_by, sort_by}

placed :
    {A : Type 0} (b : Bool) (P : A → Type 0) (x y : A)
    → (b ≡ true → P x)
    → (b ≡ false → P y)
    → P (elim b [ true ↦ x | false ↦ y ])
placed true P x y left right = left refl
placed false P x y left right = right refl

module _ {A : Type 0} where
  pub take-append-drop : (k : ℕ) (xs : List A) → take k xs ++ drop k xs ≡ xs
  take-append-drop zero xs = refl
  take-append-drop (suc k) [] = refl
  take-append-drop (suc k) (x ∷ xs) = ap (λ l. x ∷ l) (take-append-drop k xs)

module _ {A : Type 0} (rank : A → ℕ) where
  -- No element ranks below `n`.
  abbrev pub AtLeast : ℕ → List A → Type 0
  AtLeast n xs = All (λ x. n ≤ rank x) xs

  unfoldable pub InOrder : List A → Type 0
  InOrder [] = Unit
  InOrder (x ∷ xs) = AtLeast (rank x) xs × InOrder xs

  AtLeast-lower : (m n : ℕ) (xs : List A) → m ≤ n → AtLeast n xs → AtLeast m xs
  AtLeast-lower m n [] h a = tt
  AtLeast-lower m n (x ∷ xs) h (first, others) =
      (omega (arith, h, first), AtLeast-lower m n xs h others)

  AtLeast-drop : (n k : ℕ) (xs : List A) → AtLeast n xs → AtLeast n (drop k xs)
  AtLeast-drop n zero xs a = a
  AtLeast-drop n (suc k) [] a = tt
  AtLeast-drop n (suc k) (x ∷ xs) (first, others) = AtLeast-drop n k xs others

  AtLeast-take : (n k : ℕ) (xs : List A) → AtLeast n xs → AtLeast n (take k xs)
  AtLeast-take n zero xs a = tt
  AtLeast-take n (suc k) [] a = tt
  AtLeast-take n (suc k) (x ∷ xs) (first, others) = (first, AtLeast-take n k xs others)

  pub InOrder-drop : (k : ℕ) (xs : List A) → InOrder xs → InOrder (drop k xs)
  unfolding InOrder
  InOrder-drop zero xs o = o
  InOrder-drop (suc k) [] o = tt
  InOrder-drop (suc k) (x ∷ xs) (least, others) = InOrder-drop k xs others

  pub InOrder-take : (k : ℕ) (xs : List A) → InOrder xs → InOrder (take k xs)
  unfolding InOrder
  InOrder-take zero xs o = tt
  InOrder-take (suc k) [] o = tt
  InOrder-take (suc k) (x ∷ xs) (least, others) =
      (AtLeast-take (rank x) k xs least, InOrder-take k xs others)

  -- What a cut of a list in order leaves out ranks no lower than what it keeps.
  pub take-AtLeast :
      (k : ℕ) (xs : List A) → InOrder xs → All (λ x. AtLeast (rank x) (drop k xs)) (take k xs)
  unfolding InOrder
  take-AtLeast zero xs o = tt
  take-AtLeast (suc k) [] o = tt
  take-AtLeast (suc k) (x ∷ xs) (least, others) =
      (AtLeast-drop (rank x) k xs least, take-AtLeast k xs others)

module _ {A : Type 0} (le : A → A → Bool) where
  insert-Perm : (a : A) (xs : List A) → Perm (insert_by le a xs) (a ∷ xs)
  insert-Perm a [] = Perm.refl _
  insert-Perm a (x ∷ xs) =
      placed (le a x) (λ l. Perm l (a ∷ x ∷ xs)) (a ∷ x ∷ xs) (x ∷ insert_by le a xs)
        (λ _. Perm.refl _) (λ _. Perm.trans (Perm.cons x (insert-Perm a xs)) (Perm.swap a x xs))

  pub sort-Perm : (xs : List A) → Perm (sort_by le xs) xs
  sort-Perm [] = Perm.refl _
  sort-Perm (x ∷ xs) = Perm.trans (insert-Perm x (sort_by le xs)) (Perm.cons x (sort-Perm xs))

  length-insert : (a : A) (xs : List A) → length (insert_by le a xs) ≡ suc (length xs)
  length-insert a [] = refl
  length-insert a (x ∷ xs) =
      placed (le a x) (λ l. length l ≡ suc (suc (length xs))) (a ∷ x ∷ xs) (x ∷ insert_by le a xs)
        (λ _. refl) (λ _. omega (arith, length-insert a xs))

  pub length-sort : (xs : List A) → length (sort_by le xs) ≡ length xs
  length-sort [] = refl
  length-sort (x ∷ xs) = omega (arith, length-insert x (sort_by le xs), length-sort xs)

  module _ (rank : A → ℕ) (under : (a x : A) → le a x ≡ true → rank a ≤ rank x)
      (over : (a x : A) → le a x ≡ false → rank x ≤ rank a) where
    insert-AtLeast :
        (n : ℕ) (a : A) (xs : List A)
        → n ≤ rank a
        → AtLeast rank n xs
        → AtLeast rank n (insert_by le a xs)
    insert-AtLeast n a [] h t = (h, tt)
    insert-AtLeast n a (x ∷ xs) h (first, others) =
        placed (le a x) (AtLeast rank n) (a ∷ x ∷ xs) (x ∷ insert_by le a xs)
          (λ _. (h, (first, others))) (λ _. (first, insert-AtLeast n a xs h others))

    insert-InOrder : (a : A) (xs : List A) → InOrder rank xs → InOrder rank (insert_by le a xs)
    unfolding InOrder
    insert-InOrder a [] t = (tt, tt)
    insert-InOrder a (x ∷ xs) (least, others) =
        placed (le a x) (InOrder rank) (a ∷ x ∷ xs) (x ∷ insert_by le a xs)
          (λ t. (
            (under a x t, AtLeast-lower rank (rank a) (rank x) xs (under a x t) least),
            (least, others),
          ))
          (λ f. (insert-AtLeast (rank x) a xs (over a x f) least, insert-InOrder a xs others))

    pub sort-InOrder : (xs : List A) → InOrder rank (sort_by le xs)
    unfolding InOrder
    sort-InOrder [] = tt
    sort-InOrder (x ∷ xs) = insert-InOrder x (sort_by le xs) (sort-InOrder xs)
