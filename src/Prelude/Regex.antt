-- ===== src/Prelude/Regex.antt =====
-- JavaScript's backtracking matcher for the regular expressions that the sources use, over code units.
-- A group that is captured is a match of its own: what is left behind it goes to the continuation.
use Prim.Native.Nat.{ℕ, zero, suc, ◌-◌}
use mathlib.Core.Path.{◌≡◌, refl}
use mathlib.Core.Bool.{Bool, true, false, not, ◌&&◌, ◌||◌}
use mathlib.Core.List.{List, [], ◌∷◌, ◌++◌}
use mathlib.Core.Option.{Option, none, some}
use pi_dotfiles.Prelude.Lists.{length, take}
use pi_dotfiles.Prelude.Tests.{Text, codes, leb, ltb, ◌==◌}

pub data Pattern : Type 0 where
  nothing line_start : Pattern
  one : (ℕ → Bool) → Pattern
  seq alt : Pattern → Pattern → Pattern
  many many_lazy : Pattern → Pattern

-- What is before the position, and what is left.
pub record Position : Type 0 where
  pub before : Option ℕ
  pub rest : Text

abbrev is_line_start : Option ℕ → Bool
is_line_start none = true
is_line_start (some c) = (c == 10) || (c == 13) || (c == 0x2028) || (c == 0x2029)

abbrev or_else {ℓ} : {A : Type ℓ} → Option A → Option A → Option A
or_else (some a) b = some a
or_else none b = b

module _ {ℓ} {R : Type ℓ} where
  -- One unit of a class.
  match_one : (ℕ → Bool) → Position → (Position → Option R) → Option R
  match_one p s k = elim s.rest [
    | [] ↦ none
    | c ∷ cs ↦ elim (p c) [ true ↦ k (record { before = some c; rest = cs }) | false ↦ none ]
  ]

  -- A repetition, round by round; a round that consumes nothing ends it. The fuel is a round for each
  -- unit that is left.
  repeat_greedy :
      (Position → (Position → Option R) → Option R)
      → ℕ
      → Position
      → (Position → Option R)
      → Option R
  repeat_greedy m zero s k = k s
  repeat_greedy m (suc fuel) s k =
      elim (m s (λ s'. elim (ltb (length s'.rest) (length s.rest)) [
        | true ↦ repeat_greedy m fuel s' k
        | false ↦ none
      ])) [ some r ↦ some r | none ↦ k s ]

  repeat_lazy :
      (Position → (Position → Option R) → Option R)
      → ℕ
      → Position
      → (Position → Option R)
      → Option R
  repeat_lazy m zero s k = k s
  repeat_lazy m (suc fuel) s k = elim (k s) [
    | some r ↦ some r
    | none ↦ m s (λ s'. elim (ltb (length s'.rest) (length s.rest)) [
      | true ↦ repeat_lazy m fuel s' k
      | false ↦ none
    ])
  ]

  unfoldable pub match_at : Pattern → Position → (Position → Option R) → Option R
  unfolding match_one repeat_greedy repeat_lazy
  match_at nothing s k = k s
  match_at line_start s k = elim (is_line_start s.before) [ true ↦ k s | false ↦ none ]
  match_at (one p) s k = match_one p s k
  match_at (seq p q) s k = match_at p s (λ s'. match_at q s' k)
  match_at (alt p q) s k = elim (match_at p s k) [ some r ↦ some r | none ↦ match_at q s k ]
  match_at (many p) s k = repeat_greedy (match_at p) (length s.rest) s k
  match_at (many_lazy p) s k = repeat_lazy (match_at p) (length s.rest) s k

-- `p?`
abbrev pub maybe : Pattern → Pattern
maybe p = alt p nothing

-- `p+`
abbrev pub some_more : Pattern → Pattern
some_more p = seq p (many p)

abbrev pub literal : Text → Pattern
literal [] = nothing
literal (c ∷ []) = one (λ x. x == c)
literal (c ∷ d ∷ cs) = seq (one (λ x. x == c)) (literal (d ∷ cs))

-- `p{n}`, and `p{0,n}`
abbrev pub times : ℕ → Pattern → Pattern
times zero p = nothing
times (suc n) p = seq p (times n p)

abbrev pub at_most : ℕ → Pattern → Pattern
at_most zero p = nothing
at_most (suc n) p = maybe (seq p (at_most n p))

abbrev pub is_lower : ℕ → Bool
is_lower c = leb b'a' c && leb c b'z'

abbrev pub is_upper : ℕ → Bool
is_upper c = leb b'A' c && leb c b'Z'

abbrev pub is_digit : ℕ → Bool
is_digit c = leb b'0' c && leb c b'9'

abbrev pub is_any : ℕ → Bool
is_any c = true

abbrev pub not_in : List ℕ → ℕ → Bool
not_in [] c = true
not_in (x ∷ xs) c = not (c == x) && not_in xs c

abbrev pub one_of : Text → ℕ → Bool
one_of [] c = false
one_of (x ∷ xs) c = (c == x) || one_of xs c

abbrev pub consumed : Position → Position → Text
consumed from to = take (length from.rest - length to.rest) from.rest

match_two : (lead body : Pattern) → Position → Option (Position × Position)
unfolding match_at
match_two lead body s = match_at lead s (λ s1. match_at body s1 (λ s2. some (s1, s2)))

-- `text.replace(/(lead)body/g, "$1" + by)`, for a body that matches no empty text.
replace_from : ℕ → (lead body : Pattern) → (by : Text) → Position → Text
unfolding match_two
replace_from zero lead body by s = s.rest
replace_from (suc fuel) lead body by s = elim (match_two lead body s) [
  | some (s1, s2) ↦ consumed s s1 ++ (by ++ replace_from fuel lead body by s2)
  | none ↦ elim s.rest [
    | [] ↦ []
    | c ∷ cs ↦ c ∷ replace_from fuel lead body by (record { before = some c; rest = cs })
  ]
]

unfoldable pub replace_all : (lead body : Pattern) → (by text : Text) → Text
unfolding replace_from
replace_all lead body by text =
    replace_from (suc (length text)) lead body by (record { before = none; rest = text })

replaced : replace_all nothing (some_more (one is_digit)) (codes "#") (codes "a12b3") ≡ codes "a#b#"
unfolding replace_all
replaced = refl
