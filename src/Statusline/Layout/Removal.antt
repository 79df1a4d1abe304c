-- ===== src/Statusline/Layout/Removal.antt =====
-- Which segments the loop of `buildLeft` takes away.
use pi_dotfiles.Prelude.{
  ℕ, zero, suc, ◌+◌, ◌≤◌, ◌≡◌, refl, Bool, true, false, leb, Option, none, some, List, [], ◌∷◌, All,
  arith, keep, length, ◌⊎◌, inl, inr, Option-cases, Bool-cases, ap, subst, ◌∙◌, ◌≢◌,
}
use pi_dotfiles.Statusline.Layout.{
  Rendered, Terminal, choose_from, choose_removal_index, remove_at, drop_segments, is_too_wide,
}

abbrev pub is_required : Rendered → Bool
is_required r = r.view.required

abbrev pub at {ℓ} : {A : Type ℓ} → ℕ → List A → Option A
at i [] = none
at zero (x ∷ xs) = some x
at (suc i) (x ∷ xs) = at i xs

-- An optional segment with this priority stands at this index.
abbrev pub IsOptionalAt : ℕ → ℕ → List Rendered → Type 0
IsOptionalAt i p rs =
    (r : Rendered) × (at i rs ≡ some r) × (is_required r ≡ false) × (r.view.drop_priority ≡ p)

abbrev pub IsBelow : ℕ → Rendered → Type 0
IsBelow p r = (is_required r ≡ true) ⊎ (r.view.drop_priority ≤ p)

-- Where the loop found what it selected: before, or at an offset of the rest.
data Selected (index : ℕ) (before : Option (ℕ × ℕ)) (rs : List Rendered) (i p : ℕ) : Type 0 where
  earlier : before ≡ some (i, p) → Selected index before rs i p
  later : (k : ℕ) → i ≡ index + k → IsOptionalAt k p rs → Selected index before rs i p

later_by_one :
    (index : ℕ) (before : Option (ℕ × ℕ)) (r : Rendered) (rs : List Rendered) (i p : ℕ)
    → Selected (suc index) before rs i p
    → Selected index before (r ∷ rs) i p
later_by_one index before r rs i p (earlier e) = earlier e
later_by_one index before r rs i p (later k e o) = later (suc k) (omega arith) o

taken_here :
    (index : ℕ) (before : Option (ℕ × ℕ)) (r : Rendered) (rs : List Rendered) (i p : ℕ)
    → is_required r ≡ false
    → Selected (suc index) (some (index, r.view.drop_priority)) rs i p
    → Selected index before (r ∷ rs) i p
taken_here index before r rs i p o (earlier e) = later 0 (ground arith) (r, refl, o, ground arith)
taken_here index before r rs i p o (later k e s) = later (suc k) (omega arith) s

choose_from-Selected :
    (index : ℕ) (before : Option (ℕ × ℕ)) (rs : List Rendered) (i p : ℕ)
    → choose_from index before rs ≡ some (i, p)
    → Selected index before rs i p
unfolding choose_from
choose_from-Selected index before [] i p h = earlier h
choose_from-Selected index before (r ∷ rs) i p h =
    let skip = choose_from-Selected (suc index) before rs i p in
    let take_it = choose_from-Selected (suc index) (some (index, r.view.drop_priority)) rs i p in
    elim (Bool-cases (is_required r)) [
      | inl e ↦ later_by_one index before r rs i p (skip (ground arith))
      | inr e ↦ elim (Option-cases before) [
        | inl b ↦ taken_here index before r rs i p e (take_it (ground arith))
        | inr ((j, q), b) ↦ elim (Bool-cases (leb q r.view.drop_priority)) [
          | inl l ↦ taken_here index before r rs i p e (take_it (ground arith))
          | inr l ↦ later_by_one index before r rs i p (skip (ground arith))
        ]
      ]
    ]

-- What was selected before has at most the priority that is selected in the end.
abbrev IsAtMost : Option (ℕ × ℕ) → ℕ → Type 0
IsAtMost none p = Unit {0}
IsAtMost (some (i, q)) p = q ≤ p

choose_from-IsBelow :
    (index : ℕ) (before : Option (ℕ × ℕ)) (rs : List Rendered) (i p : ℕ)
    → choose_from index before rs ≡ some (i, p)
    → IsAtMost before p × All (IsBelow p) rs
unfolding choose_from
choose_from-IsBelow index none [] i p h = absurd cc
choose_from-IsBelow index (some (j, q)) [] i p h = (ground arith, tt)
choose_from-IsBelow index before (r ∷ rs) i p h =
    let skip = choose_from-IsBelow (suc index) before rs i p in
    let take_it = choose_from-IsBelow (suc index) (some (index, r.view.drop_priority)) rs i p in
    elim (Bool-cases (is_required r)) [
      | inl e ↦ let (old, below) = skip (ground arith) in (old, (inl e, below))
      | inr e ↦ elim (Option-cases before) [
        | inl b ↦ let (here, below) = take_it (ground arith) in (ground arith, (inr here, below))
        | inr ((j, q), b) ↦ elim (Bool-cases (leb q r.view.drop_priority)) [
          | inl l ↦ let (here, below) = take_it (ground arith) in (ground arith, (inr here, below))
          | inr l ↦ let (old, below) = skip (ground arith) in (old, (inr (ground arith), below))
        ]
      ]
    ]

-- The segment that is taken away is optional, and no optional segment has a higher drop priority.
pub removed_first :
    (rs : List Rendered) (i : ℕ)
    → choose_removal_index rs ≡ some i
    → (p : ℕ) × IsOptionalAt i p rs × All (IsBelow p) rs
unfolding choose_removal_index
removed_first rs i h = elim (Option-cases (choose_from 0 none rs)) [
  | inl e ↦ absurd (ground arith)
  | inr ((j, p), e) ↦
      let found : choose_from 0 none rs ≡ some (i, p) = ground arith in
      (
        p,
        place i p (choose_from-Selected 0 none rs i p found),
        (choose_from-IsBelow 0 none rs i p found).1,
      )
]
  where
    place : (i p : ℕ) → Selected 0 none rs i p → IsOptionalAt i p rs
    place i p (earlier e) = absurd cc
    place i p (later k e o) = subst (λ n. IsOptionalAt n p rs) (omega arith) o

choose_from-some :
    (index : ℕ) (s : ℕ × ℕ) (rs : List Rendered) → choose_from index (some s) rs ≢ none
unfolding choose_from
choose_from-some index s [] h = cc
choose_from-some index s (r ∷ rs) h =
    let a = choose_from-some (suc index) s rs in
    let b = choose_from-some (suc index) (index, r.view.drop_priority) rs in ground (arith, a, b)

choose_from-none :
    (index : ℕ) (rs : List Rendered)
    → choose_from index none rs ≡ none
    → All (λ r. is_required r ≡ true) rs
unfolding choose_from
choose_from-none index [] h = tt
choose_from-none index (r ∷ rs) h = elim (Bool-cases (is_required r)) [
  | inl e ↦ (e, choose_from-none (suc index) rs (ground arith))
  | inr e ↦ absurd (choose_from-some (suc index) (index, r.view.drop_priority) rs (ground arith))
]

-- Nothing can be taken away only where every segment is required.
pub choose-none :
    (rs : List Rendered) → choose_removal_index rs ≡ none → All (λ r. is_required r ≡ true) rs
unfolding choose_removal_index
choose-none rs h = choose_from-none 0 rs (ground arith)

pub keep-remove_at :
    (i p : ℕ) (rs : List Rendered)
    → IsOptionalAt i p rs
    → keep is_required (remove_at i rs) ≡ keep is_required rs
unfolding remove_at
keep-remove_at i p [] (r, e, o, q) = refl
keep-remove_at zero p (x ∷ xs) (r, e, o, q) =
    let same : x ≡ r = ground arith in
    let optional : is_required x ≡ false = ap is_required same ∙ o in ground (arith, optional)
keep-remove_at (suc i) p (x ∷ xs) (r, e, o, q) = ground (arith, keep-remove_at i p xs (r, e, o, q))

pub length-remove_at :
    (i p : ℕ) (rs : List Rendered) → IsOptionalAt i p rs → suc (length (remove_at i rs)) ≡ length rs
unfolding remove_at
length-remove_at i p [] (r, e, o, q) = absurd cc
length-remove_at zero p (x ∷ xs) (r, e, o, q) = refl
length-remove_at (suc i) p (x ∷ xs) (r, e, o, q) =
    omega (arith, length-remove_at i p xs (r, e, o, q))

module _ (t : Terminal) where
  -- The loop takes no required segment away, and it ends because the line fits or because only
  -- required segments are left, given fuel for each segment.
  pub drop_segments-required :
      (fuel available : ℕ) (rs : List Rendered)
      → length rs ≤ fuel
      → (keep is_required (drop_segments t fuel available rs) ≡ keep is_required rs)
        × ((is_too_wide t available (drop_segments t fuel available rs) ≡ false)
            ⊎ All (λ r. is_required r ≡ true) (drop_segments t fuel available rs))
  unfolding drop_segments
  drop_segments-required zero available [] h = (refl, inr tt)
  drop_segments-required zero available (r ∷ rs) h = absurd (omega arith)
  drop_segments-required (suc fuel) available rs h =
      elim (Bool-cases (is_too_wide t available rs)) [
        | inr e ↦ (ground arith, inl (ground arith))
        | inl e ↦ elim (Option-cases (choose_removal_index rs)) [
          | inl miss ↦ rw (e, miss) (refl, inr (choose-none rs miss))
          | inr (i, hit) ↦
              let (p, o, below) = removed_first rs i hit in
              let shorter = length-remove_at i p rs o in
              let (same, done) =
                drop_segments-required fuel available (remove_at i rs) (omega (arith, shorter)) in
              rw (e, hit) (same ∙ keep-remove_at i p rs o, done)
        ]
      ]
