-- ===== src/Notify/Xml/Markup.antt =====
-- The units that would open or close a tag or an attribute, and `escapeXmlText`.
use pi_dotfiles.Prelude.{ℕ, ◌≢◌, [], ◌∷◌, ◌++◌, Text, codes, All, arith}
use pi_dotfiles.Notify.Xml.{replace_unit, escape_xml_text}

-- The units that would open or close a tag or an attribute.
abbrev pub IsPlain : Text → Type 0
IsPlain = All (λ x. (x ≢ b'<') × (x ≢ b'>') × (x ≢ b'"'))

module _ (P : ℕ → Type 0) where
  append-All : (xs ys : Text) → All P xs → All P ys → All P (xs ++ ys)
  append-All [] ys h k = k
  append-All (x ∷ xs) ys h k = (h.0, append-All xs ys h.1 k)

  everywhere : ((x : ℕ) → P x) → (xs : Text) → All P xs
  everywhere p [] = tt
  everywhere p (x ∷ xs) = (p x, everywhere p xs)

  replace_unit-All :
      (c : ℕ) (r xs : Text) → All P r → All (λ x. x ≢ c → P x) xs → All P (replace_unit c r xs)
  unfolding replace_unit
  replace_unit-All c r [] h k = tt
  replace_unit-All c r (x ∷ xs) h k =
      let ih = replace_unit-All c r xs h k.1 in
      ground (arith, ih, append-All r (replace_unit c r xs) h ih)

-- No escaped text holds `<`, `>` or a double quote.
pub escape-IsPlain : (text : Text) → IsPlain (escape_xml_text text)
unfolding escape_xml_text
escape-IsPlain text = replace_unit-All _ b'"' (codes "&quot;") _ (omega arith) (
    replace_unit-All _ b'>' (codes "&gt;") _ (ground arith) (
      replace_unit-All _ b'<' (codes "&lt;") _ (ground arith)
        (everywhere _ (λ x a b c. (a, b, c)) (replace_unit b'&' (codes "&amp;") text))))
