-- ===== src/Notify/Xml.antt =====
-- `escapeXmlText` and `decodeXmlText` of herdr-subagent/notifications.ts. `replaceAll` with a text
-- as its pattern goes from left to right; `skip` counts what is left of a match.
pub mod RoundTrip
pub mod Markup
use pi_dotfiles.Prelude.{
  ℕ, zero, suc, ◌-◌, Bool, true, false, ◌==◌, ◌&&◌, if◌then◌else◌, List, [], ◌∷◌, ◌++◌, Text, codes,
  length,
}

pub is_prefix : Text → Text → Bool
is_prefix [] xs = true
is_prefix (p ∷ ps) [] = false
is_prefix (p ∷ ps) (x ∷ xs) = (p == x) && is_prefix ps xs

-- `text.replaceAll(c, r)` for a single unit `c`.
pub replace_unit : ℕ → Text → Text → Text
replace_unit c r [] = []
replace_unit c r (x ∷ xs) = let rest = replace_unit c r xs in if x == c then r ++ rest else x ∷ rest

replace_from : Text → ℕ → ℕ → Text → Text
replace_from p c skip [] = []
replace_from p c (suc skip) (x ∷ xs) = replace_from p c skip xs
replace_from p c zero (x ∷ xs) =
    let hit = c ∷ replace_from p c (length p - 1) xs in
    let miss = x ∷ replace_from p c 0 xs in if is_prefix p (x ∷ xs) then hit else miss

-- `text.replaceAll(p, c)` for a nonempty text `p` and a single unit `c`.
pub replace_text : Text → ℕ → Text → Text
unfolding replace_from is_prefix
replace_text p c xs = replace_from p c 0 xs

unfoldable pub escape_xml_text : Text → Text
unfolding replace_unit
escape_xml_text text = replace_unit b'"' (codes "&quot;") (
    replace_unit b'>' (codes "&gt;")
      (replace_unit b'<' (codes "&lt;") (replace_unit b'&' (codes "&amp;") text)))

unfoldable pub decode_xml_text : Text → Text
unfolding replace_text
decode_xml_text text = replace_text (codes "&amp;") b'&' (
    replace_text (codes "&lt;") b'<'
      (replace_text (codes "&gt;") b'>' (replace_text (codes "&quot;") b'"' text)))
