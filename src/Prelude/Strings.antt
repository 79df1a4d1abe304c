-- ===== src/Prelude/Strings.antt =====
-- The string methods of JavaScript that the sources call, over UTF-16 code units.
use Prim.Native.Nat.{ℕ, ◌-◌}
use mathlib.Core.Bool.{Bool, true, false, ◌&&◌, ◌||◌}
use mathlib.Core.List.{List, [], ◌∷◌, ◌++◌}
use pi_dotfiles.Prelude.Lists.{take, drop}
use pi_dotfiles.Prelude.Tests.{Text, leb, ◌==◌, if◌then◌else◌}

-- `\s` of a regular expression, which is also the class that `trim` removes.
unfoldable pub is_space : ℕ → Bool
is_space c =
    (leb 9 c && leb c 13)
    || (c == 32)
    || (c == 0xa0)
    || (c == 0x1680)
    || (leb 0x2000 c && leb c 0x200a)
    || (c == 0x2028)
    || (c == 0x2029)
    || (c == 0x202f)
    || (c == 0x205f)
    || (c == 0x3000)
    || (c == 0xfeff)

abbrev pub is_empty {ℓ} : {A : Type ℓ} → List A → Bool
is_empty [] = true
is_empty (x ∷ xs) = false

unfoldable pub trim_start : Text → Text
unfolding is_space
trim_start [] = []
trim_start (x ∷ xs) = let rest = trim_start xs in if is_space x then rest else x ∷ xs

unfoldable pub trim_end : Text → Text
unfolding is_space
trim_end [] = []
trim_end (x ∷ xs) = let rest = trim_end xs in if is_empty rest && is_space x then [] else x ∷ rest

unfoldable pub trim : Text → Text
unfolding trim_start trim_end
trim text = trim_end (trim_start text)

collapse_from : Bool → Text → Text
unfolding is_space
collapse_from after [] = []
collapse_from after (x ∷ xs) =
    let skipped = collapse_from true xs in
    let kept = x ∷ collapse_from false xs in
    if is_space x then (if after then skipped else 32 ∷ skipped) else kept

-- `text.replaceAll(/\s+/g, " ")`
unfoldable pub collapse_spaces : Text → Text
unfolding collapse_from
collapse_spaces text = collapse_from false text

-- `text.slice(from, to)` for bounds that are not negative.
abbrev pub slice : ℕ → ℕ → Text → Text
slice from to text = take (to - from) (drop from text)

abbrev pub starts_with : Text → Text → Bool
starts_with [] text = true
starts_with (p ∷ ps) [] = false
starts_with (p ∷ ps) (x ∷ xs) = (p == x) && starts_with ps xs

-- `text.includes(part)`
unfoldable pub includes : Text → Text → Bool
includes part [] = is_empty part
includes part (x ∷ xs) =
    let rest = includes part xs in if starts_with part (x ∷ xs) then true else rest

abbrev pub concat : List Text → Text
concat [] = []
concat (t ∷ ts) = t ++ concat ts

-- `parts.join(separator)`
unfoldable pub join : Text → List Text → Text
join separator [] = []
join separator (t ∷ []) = t
join separator (t ∷ u ∷ ts) = t ++ (separator ++ join separator (u ∷ ts))
