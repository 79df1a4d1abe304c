-- ===== src/SmartContext/History/Reading.antt =====
-- A caller of `queryHistory` that follows `nextOffset`.
use pi_dotfiles.Prelude.{
  take_all, ℕ, zero, suc, ◌+◌, ◌-◌, ◌<◌, ◌≡◌, refl, ap, ◌∙◌, Option, none, some, List, [], ◌∷◌,
  ◌++◌, Text, arith, length, take, drop, slice, length-take, length-drop, Option-cases, inl, inr,
}
use pi_dotfiles.SmartContext.Archive.{HistoryItem}
use pi_dotfiles.SmartContext.History.{read_chunk, next_of}

module _ {ℓ} {A : Type ℓ} where
  drop-add : (m n k : ℕ) (xs : List A) → k ≡ m + n → drop k xs ≡ drop n (drop m xs)
  drop-add zero n k xs h = let e : k ≡ n = omega arith in rw e
  drop-add (suc m) zero zero [] h = refl
  drop-add (suc m) zero (suc k) [] h = refl
  drop-add (suc m) (suc n) zero [] h = refl
  drop-add (suc m) (suc n) (suc k) [] h = refl
  drop-add (suc m) n zero (x ∷ xs) h = absurd (omega arith)
  drop-add (suc m) n (suc k) (x ∷ xs) h = drop-add m n k xs (omega arith)

  take-drop : (n : ℕ) (xs : List A) → take n xs ++ drop n xs ≡ xs
  take-drop zero xs = refl
  take-drop (suc n) [] = refl
  take-drop (suc n) (x ∷ xs) = ap (λ ys. x ∷ ys) (take-drop n xs)

  -- What a page of at most `limit` elements from `offset` on shows.
  abbrev shown : ℕ → ℕ → List A → List A
  shown offset limit xs = take limit (drop offset xs)

  last_page :
      (offset limit : ℕ) (xs : List A)
      → 0 < limit
      → next_of offset (length (shown offset limit xs)) (length xs) ≡ none
      → shown offset limit xs ≡ drop offset xs
  last_page offset limit xs pos h =
      take_all limit (drop offset xs)
        (ground (arith, length-take limit (drop offset xs), length-drop offset xs))

  page_before :
      (offset limit n : ℕ) (xs : List A)
      → next_of offset (length (shown offset limit xs)) (length xs) ≡ some n
      → (n ≡ offset + limit) × (offset + limit < length xs)
  page_before offset limit n xs h =
      ground (arith, length-take limit (drop offset xs), length-drop offset xs)

  page_joins :
      (offset limit n : ℕ) (xs : List A)
      → n ≡ offset + limit
      → shown offset limit xs ++ drop n xs ≡ drop offset xs
  page_joins offset limit n xs h =
      rw (drop-add offset limit n xs h) (take-drop limit (drop offset xs))

slice-take :
    (offset limit : ℕ) (text : Text) → slice offset (offset + limit) text ≡ shown offset limit text
slice-take offset limit text = let e : offset + limit - offset ≡ limit = omega arith in rw e

glue : Text → Option Text → Option Text
glue text none = none
glue text (some more) = some (text ++ more)

-- What a caller has once it followed `nextOffset`, if there is one.
joined : Option ℕ → Text → (ℕ → Option Text) → Option Text
unfolding glue
joined none text rest = some text
joined (some n) text rest = glue text (rest n)

-- A caller that reads an item chunk after chunk; `none` means that the fuel ran out.
unfoldable pub read_on : ℕ → HistoryItem → (limit offset : ℕ) → Option Text
unfolding joined
read_on zero item limit offset = none
read_on (suc fuel) item limit offset =
    joined (read_chunk item offset limit).next_offset (read_chunk item offset limit).text
      (λ n. read_on fuel item limit n)

joined-none :
    (next : Option ℕ) (text : Text) (rest : ℕ → Option Text)
    → next ≡ none
    → joined next text rest ≡ some text
unfolding joined
joined-none next text rest e = cc

joined-some :
    (next : Option ℕ) (text more : Text) (rest : ℕ → Option Text) (n : ℕ)
    → next ≡ some n
    → rest n ≡ some more
    → joined next text rest ≡ some (text ++ more)
unfolding joined glue
joined-some next text more rest n e r = ap (λ m. joined m text rest) e ∙ ap (glue text) r

-- Following `nextOffset` from an offset reads the rest of the item's text, in at most one request
-- for each unit of it and one more.
pub read_on_complete :
    (fuel : ℕ) (item : HistoryItem) (limit offset : ℕ)
    → 0 < limit
    → length item.text - offset < fuel
    → read_on fuel item limit offset ≡ some (drop offset item.text)
unfolding read_on read_chunk
read_on_complete zero item limit offset pos h = absurd (omega arith)
read_on_complete (suc fuel) item limit offset pos h =
    let part : Text = slice offset (offset + limit) item.text in
    let same = slice-take offset limit item.text in
    let next : Text → Option ℕ = λ t. next_of offset (length t) (length item.text) in
    elim (Option-cases (next (shown offset limit item.text))) [
      | inl e ↦
          joined-none (next part) part (λ n. read_on fuel item limit n) (ap next same ∙ e)
          ∙ ap some (same ∙ last_page offset limit item.text pos e)
      | inr (n, e) ↦
          let (after, more) = page_before offset limit n item.text e in
          joined-some (next part) part (drop n item.text) (λ m. read_on fuel item limit m) n
            (ap next same ∙ e) (read_on_complete fuel item limit n pos (omega arith))
          ∙ ap some
              (ap (λ t. t ++ drop n item.text) same ∙ page_joins offset limit n item.text after)
    ]
