-- ===== src/Models/Best.antt =====
-- Which model herdr-subagent/model-resolver.ts takes.
use pi_dotfiles.Prelude.{
  ℕ, zero, suc, ◌+◌, ◌*◌, ◌≤◌, ◌<◌, ◌≡◌, ◌⊎◌, inl, inr, refl, sym, subst, ap, ◌∙◌, arith, Bool,
  true, false, if◌then◌else◌, Option, none, some, List, [], ◌∷◌, ◌++◌, Text, All,
}
use native.Mathlib.Nat.{mul-le-mul_right, mul-pos, le_of_mul-le-mul_left, mul_comm, mul_assoc}
use pi_dotfiles.Models.Resolve.{
  ModelEntry, ModelRegistry, Strings, ResolvedModel, registered, accepted, Score, points, numerator,
  above, found, normalize_model_text, score_model, best_from, fuzzy_match,
}

swap_last : (a b c : ℕ) → a * b * c ≡ a * c * b
swap_last a b c = mul_assoc a b c ∙ ap (λ x. a * x) (mul_comm b c) ∙ sym (mul_assoc a c b)

cross_trans :
    (n0 w0 n w n' w' : ℕ) → 0 < n + w → n0 * w ≤ n * w0 → n * w' ≤ n' * w → n0 * w' ≤ n' * w0
cross_trans n0 w0 n zero n' zero pos h1 h2 = omega arith
cross_trans n0 w0 n zero n' (suc k) pos h1 h2 =
    absurd (omega (arith, h2, mul-pos {m = n} {n = suc k} (omega (arith, pos)) (omega arith)))
cross_trans n0 w0 n (suc k) n' w' pos h1 h2 =
    let a : n0 * suc k * w' ≤ n * w0 * w' = mul-le-mul_right w' h1 in
    let b : n * w' * w0 ≤ n' * suc k * w0 = mul-le-mul_right w0 h2 in
    le_of_mul-le-mul_left {k = suc k}
      (omega (
        arith,
        a,
        b,
        swap_last n w0 w',
        swap_last n0 (suc k) w',
        swap_last n' (suc k) w0,
        mul_comm (suc k) (n0 * w'),
        mul_comm (suc k) (n' * w0),
      ))
      (omega arith)

above-back : (a b : Score) → above a b ≡ true → above b a ≡ false
unfolding above
above-back a b h = ground (arith, h)

-- A score that is a number, or infinite.
abbrev IsScore : Score → Type 0
IsScore a = 0 < numerator a + a.whole

positive_factor : (n w x : ℕ) → x < n * w → 0 < n
positive_factor zero w x lt = absurd (omega (arith, lt))
positive_factor (suc n) w x lt = omega arith

above-IsScore : (a b : Score) → above a b ≡ true → IsScore a
unfolding above
above-IsScore a b h =
    let lt : numerator b * a.whole < numerator a * b.whole = ground (arith, h) in
    omega (arith, positive_factor (numerator a) b.whole (numerator b * a.whole) lt)

not_above_trans :
    (a b c : Score) → IsScore b → above a b ≡ false → above b c ≡ false → above a c ≡ false
unfolding above
not_above_trans a b c pos h1 h2 =
    let le1 : numerator a * b.whole ≤ numerator b * a.whole = ground (arith, h1) in
    let le2 : numerator b * c.whole ≤ numerator c * b.whole = ground (arith, h2) in
    let le =
      cross_trans (numerator a) a.whole (numerator b) b.whole (numerator c) c.whole pos le1 le2 in
    ground (arith, le)

below-IsScore : (a : Score) → above (points 20) a ≡ true → IsScore a
unfolding above
below-IsScore a h = ground (arith, h)

above_self : (a : Score) → above a a ≡ false
unfolding above
above_self a = ground arith

module _ (strings : Strings) (query : Text) where
  -- One of the models, with its score.
  IsTaken : List ModelEntry → Option ModelEntry → Score → Type 0
  IsTaken ms best score =
      (m : ModelEntry) × (front : List ModelEntry) × (back : List ModelEntry) × (best ≡ some m)
      × (score ≡ score_model strings query m)
      × (ms ≡ front ++ m ∷ back)

  abbrev pub NoneAbove : List ModelEntry → Score → Type 0
  NoneAbove ms score = All (λ x. above (score_model strings query x) score ≡ false) ms

  -- The result of the loop: no score is above it, and it is the start or one of the models.
  Chosen :
      List ModelEntry
      → (best : Option ModelEntry) → (start : Score) → Option ModelEntry × Score
      → Type 0
  Chosen ms best start (b, s) =
      (above start s ≡ false) × NoneAbove ms s × (((b ≡ best) × (s ≡ start)) ⊎ IsTaken ms b s)

  later-IsTaken :
      (m : ModelEntry) (ms : List ModelEntry) (b : Option ModelEntry) (s : Score)
      → IsTaken ms b s
      → IsTaken (m ∷ ms) b s
  unfolding IsTaken
  later-IsTaken m ms b s (x, front, back, e1, e2, e3) =
      (x, m ∷ front, back, e1, e2, ap (λ l. m ∷ l) e3)

  -- The first model scores best so far.
  taken-Chosen :
      (m : ModelEntry) (ms : List ModelEntry) (best : Option ModelEntry) (score : Score)
      (b : Option ModelEntry) (s : Score)
      → above (score_model strings query m) score ≡ true
      → Chosen ms (some m) (score_model strings query m) (b, s)
      → Chosen (m ∷ ms) best score (b, s)
  unfolding Chosen IsTaken
  taken-Chosen m ms best score b s up (first, others, from) =
      let sm = score_model strings query m in
      let under =
        not_above_trans score sm s (above-IsScore sm score up) (above-back sm score up) first in
      (
        under,
        (first, others),
        inr (elim from [
          | inl (e1, e2) ↦ (m, [], ms, e1, e2, refl)
          | inr t ↦ later-IsTaken m ms b s t
        ]),
      )

  -- The first model does not.
  passed-Chosen :
      (m : ModelEntry) (ms : List ModelEntry) (best : Option ModelEntry) (score : Score)
      (b : Option ModelEntry) (s : Score)
      → IsScore score
      → above (score_model strings query m) score ≡ false
      → Chosen ms best score (b, s)
      → Chosen (m ∷ ms) best score (b, s)
  unfolding Chosen
  passed-Chosen m ms best score b s pos down (first, others, from) =
      let sm = score_model strings query m in
      (
        first,
        (not_above_trans sm score s pos down first, others),
        elim from [ inl kept ↦ inl kept | inr t ↦ inr (later-IsTaken m ms b s t) ],
      )

  step-Chosen :
      (m : ModelEntry) (ms : List ModelEntry) (best : Option ModelEntry) (score : Score) (up : Bool)
      → IsScore score
      → above (score_model strings query m) score ≡ up
      → (IsScore (score_model strings query m)
          → Chosen ms
              (some m)
              (score_model strings query m)
              (best_from strings query ms (some m) (score_model strings query m)))
      → Chosen ms best score (best_from strings query ms best score)
      → Chosen (m ∷ ms) best score (
          if up
          then best_from strings query ms (some m) (score_model strings query m)
          else best_from strings query ms best score)
  step-Chosen m ms best score true pos e taken passed =
      taken-Chosen m ms best score _ _ e
        (taken (above-IsScore (score_model strings query m) score e))
  step-Chosen m ms best score false pos e taken passed =
      passed-Chosen m ms best score _ _ pos e passed

  best_from-Chosen :
      (ms : List ModelEntry) (best : Option ModelEntry) (score : Score)
      → IsScore score
      → Chosen ms best score (best_from strings query ms best score)
  unfolding best_from Chosen
  best_from-Chosen [] best score pos = (above_self score, tt, inl (refl, refl))
  best_from-Chosen (m ∷ ms) best score pos =
      step-Chosen m ms best score (above (score_model strings query m) score) pos refl
        (λ valid. best_from-Chosen ms (some m) (score_model strings query m) valid)
        (best_from-Chosen ms best score pos)

module _ (strings : Strings) (query : Text) (registry : ModelRegistry) where
  -- The models hold one that is accepted and that none outscores.
  pub HasBest : List ModelEntry → Option ResolvedModel → Type 0
  HasBest available result =
      (m : ModelEntry) × (front : List ModelEntry) × (back : List ModelEntry) × (available
        ≡ front ++ m ∷ back)
      × (result ≡ some (found (registered registry m)))
      × (above (points 20) (score_model strings query m) ≡ false)
      × NoneAbove strings query available (score_model strings query m)

  pub IsLooseMatch : List ModelEntry → Option ResolvedModel → Type 0
  IsLooseMatch available result =
      ((result ≡ none) × NoneAbove strings query available (points 20)) ⊎ HasBest available result

  NoneAbove-lower :
      (ms : List ModelEntry) (s t : Score)
      → IsScore s
      → above s t ≡ false
      → NoneAbove strings query ms s
      → NoneAbove strings query ms t
  NoneAbove-lower [] s t pos le others = tt
  NoneAbove-lower (m ∷ ms) s t pos le (first, others) = (
    not_above_trans (score_model strings query m) s t pos first le,
    NoneAbove-lower ms s t pos le others,
  )

  accepted-IsLooseMatch :
      (available : List ModelEntry) (m : ModelEntry) (front back : List ModelEntry) (low : Bool)
      → above (points 20) (score_model strings query m) ≡ low
      → available ≡ front ++ m ∷ back
      → NoneAbove strings query available (score_model strings query m)
      → IsLooseMatch available (if low then none else some (found (registered registry m)))
  unfolding IsLooseMatch HasBest
  accepted-IsLooseMatch available m front back true e at others = inl (
    refl,
    NoneAbove-lower available (score_model strings query m) (points 20)
        (below-IsScore (score_model strings query m) e)
        (above-back (points 20) (score_model strings query m) e) others,
  )
  accepted-IsLooseMatch available m front back false e at others =
      inr (m, front, back, at, refl, e, others)

  Chosen-IsLooseMatch :
      (available : List ModelEntry) (b : Option ModelEntry) (s : Score)
      → Chosen strings query available none (points 0) (b, s)
      → IsLooseMatch available (accepted registry b s)
  unfolding Chosen IsTaken accepted IsLooseMatch above
  Chosen-IsLooseMatch available b s (start, others, inl (e1, e2)) =
      let low = subst (NoneAbove strings query available) e2 others in
      subst (λ o. IsLooseMatch available (accepted registry o s)) (sym e1)
        (inl (refl, NoneAbove-lower available (points 0) (points 20) (omega arith) refl low))
  Chosen-IsLooseMatch available b s (start, others, inr (m, front, back, e1, e2, at)) =
      let sm = score_model strings query m in
      subst (λ o. IsLooseMatch available (accepted registry o s)) (sym e1)
        (subst (λ t. IsLooseMatch available (accepted registry (some m) t)) (sym e2)
          (accepted-IsLooseMatch available m front back (above (points 20) sm) refl at
            (subst (NoneAbove strings query available) e2 others)))

-- A reference that is matched loosely names, as the registry has it, an available model whose score
-- is 20 or more and that no available model outscores. Where none is matched, no available model
-- scores above 20.
pub fuzzy_match-IsLooseMatch :
    (strings : Strings) (registry : ModelRegistry) (input : Text) (available : List ModelEntry)
    → IsLooseMatch strings
        (normalize_model_text strings input)
        registry
        available
        (fuzzy_match strings input registry available)
unfolding fuzzy_match
fuzzy_match-IsLooseMatch strings registry input available =
    let query = normalize_model_text strings input in
    let (best, score) = best_from strings query available none (points 0) in
    Chosen-IsLooseMatch strings query registry available best score
      (best_from-Chosen strings query available none (points 0) (omega arith))
