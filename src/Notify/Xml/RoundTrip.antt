-- ===== src/Notify/Xml/RoundTrip.antt =====
-- `decodeXmlText` after `escapeXmlText`, one entity at a time.
use pi_dotfiles.Prelude.{
  ℕ, ◌≡◌, refl, ◌≢◌, true, false, [], ◌∷◌, ◌++◌, Text, codes, All, arith, length, ◌-◌, ap,
}
use pi_dotfiles.Notify.Xml.{
  is_prefix, replace_unit, replace_from, replace_text, escape_xml_text, decode_xml_text,
}

-- The pattern starts at no position of the text.
abbrev Free : Text → Text → Type 0
Free p [] = Unit {0}
Free p (x ∷ xs) = (is_prefix p (x ∷ xs) ≡ false) × Free p xs

abbrev Without : ℕ → Text → Type 0
Without c = All (λ x. x ≢ c)

-- A text without `&` that starts a text after a replacement by an entity started it before.
is_prefix-replace_unit :
    (c e : ℕ) (r p xs : Text)
    → Without e p
    → is_prefix p xs ≡ false
    → is_prefix p (replace_unit c (e ∷ r) xs) ≡ false
unfolding is_prefix replace_unit
is_prefix-replace_unit c e r [] xs w h = h
is_prefix-replace_unit c e r (a ∷ p) [] w h = h
is_prefix-replace_unit c e r (a ∷ p) (x ∷ xs) w h =
    ground (arith, is_prefix-replace_unit c e r p xs w.1)

is_prefix-append : (p xs : Text) → is_prefix p (p ++ xs) ≡ true
unfolding is_prefix
is_prefix-append [] xs = refl
is_prefix-append (a ∷ p) xs = ground (arith, is_prefix-append p xs)

replace_from-skip :
    (p : Text) (c : ℕ) (a xs : Text) → replace_from p c (length a) (a ++ xs) ≡ replace_from p c 0 xs
unfolding replace_from
replace_from-skip p c [] [] = refl
replace_from-skip p c [] (x ∷ xs) = refl
replace_from-skip p c (b ∷ a) xs = replace_from-skip p c a xs

replace_from-hit :
    (e : ℕ) (a : Text) (c : ℕ) (xs : Text)
    → replace_from (e ∷ a) c 0 ((e ∷ a) ++ xs) ≡ c ∷ replace_from (e ∷ a) c 0 xs
unfolding replace_from
replace_from-hit e a c xs =
    let n : length (e ∷ a) - 1 ≡ length a = omega arith in
    rw (is_prefix-append (e ∷ a) xs, n) (ap (λ ys. c ∷ ys) (replace_from-skip (e ∷ a) c a xs))

-- The pattern starts at no position of the text, but where the unit `c` stands.
abbrev Kept : ℕ → Text → Text → Type 0
Kept c p [] = Unit {0}
Kept c p (x ∷ xs) = (x ≢ c → is_prefix p (x ∷ xs) ≡ false) × Kept c p xs

replace_from-miss :
    (c e x : ℕ) (a xs : Text)
    → Without e a
    → is_prefix (e ∷ a) (x ∷ xs) ≡ false
    → replace_from (e ∷ a) c 0 (x ∷ replace_unit c (e ∷ a) xs)
      ≡ x ∷ replace_from (e ∷ a) c 0 (replace_unit c (e ∷ a) xs)
unfolding replace_from is_prefix
replace_from-miss c e x a xs w h = ground (arith, is_prefix-replace_unit c e a a xs w)

-- An entity is put for `c` and taken back, where the text had none of its own.
restore :
    (c e : ℕ) (a xs : Text)
    → Without e a
    → Kept c (e ∷ a) xs
    → replace_from (e ∷ a) c 0 (replace_unit c (e ∷ a) xs) ≡ xs
unfolding replace_unit replace_from
restore c e a [] w h = refl
restore c e a (x ∷ xs) w (now, later) =
    let ih = restore c e a xs w later in
    ground (
      arith,
      ih,
      replace_from-hit e a c (replace_unit c (e ∷ a) xs),
      replace_from-miss c e x a xs w,
    )

Kept-of-Free : (c : ℕ) (p xs : Text) → Free p xs → Kept c p xs
Kept-of-Free c p [] h = tt
Kept-of-Free c p (x ∷ xs) (now, later) = (λ _. now, Kept-of-Free c p xs later)

Kept-self : (c : ℕ) (a xs : Text) → Kept c (c ∷ a) xs
unfolding is_prefix
Kept-self c a [] = tt
Kept-self c a (x ∷ xs) = (λ h. ground arith, Kept-self c a xs)

-- An entity `e ∷ r` that holds no start of `p` brings none into the text.
abbrev Apart : Text → Text → Type 0
Apart p r = (rest : Text) → Free p rest → Free p (r ++ rest)

replace_unit-Free :
    (c e : ℕ) (r a xs : Text)
    → Without e a
    → Apart (e ∷ a) (e ∷ r)
    → Free (e ∷ a) xs
    → Free (e ∷ a) (replace_unit c (e ∷ r) xs)
unfolding replace_unit is_prefix
replace_unit-Free c e r a [] w apart h = tt
replace_unit-Free c e r a (x ∷ xs) w apart h =
    let ih = replace_unit-Free c e r a xs w apart h.1 in
    ground (arith, ih, apart (replace_unit c (e ∷ r) xs) ih, is_prefix-replace_unit c e r a xs w)

-- After `&` is escaped no other entity starts anywhere.
escape_amp-Free :
    (e : ℕ) (r a xs : Text) → Apart (e ∷ a) (e ∷ r) → Free (e ∷ a) (replace_unit e (e ∷ r) xs)
unfolding replace_unit is_prefix
escape_amp-Free e r a [] apart = tt
escape_amp-Free e r a (x ∷ xs) apart =
    let ih = escape_amp-Free e r a xs apart in
    ground (arith, ih, apart (replace_unit e (e ∷ r) xs) ih)

abbrev amp : Text
amp = codes "amp;"

abbrev lt : Text
lt = codes "lt;"

abbrev gt : Text
gt = codes "gt;"

abbrev quot : Text
quot = codes "quot;"

abbrev entity : Text → Text
entity name = b'&' ∷ name

-- An escaping step for another entity keeps the text free of `name`.
keep-Free :
    (c : ℕ) (name other xs : Text)
    → Without b'&' name
    → Apart (entity name) (entity other)
    → Free (entity name) xs
    → Free (entity name) (replace_unit c (entity other) xs)
keep-Free c name other xs = replace_unit-Free c b'&' other name xs

module _ (text : Text) where
  abbrev after_amp : Text
  after_amp = replace_unit b'&' (entity amp) text

  abbrev after_lt : Text
  after_lt = replace_unit b'<' (entity lt) after_amp

  abbrev after_gt : Text
  after_gt = replace_unit b'>' (entity gt) after_lt

  after_amp-Free-lt : Free (entity lt) after_amp
  unfolding is_prefix
  after_amp-Free-lt = escape_amp-Free b'&' amp lt text (λ rest h. ground arith)

  after_lt-Free-gt : Free (entity gt) after_lt
  unfolding is_prefix
  after_lt-Free-gt =
      keep-Free b'<' gt lt after_amp (omega arith) (λ rest h. ground arith)
        (escape_amp-Free b'&' amp gt text (λ rest h. ground arith))

  after_gt-Free-quot : Free (entity quot) after_gt
  unfolding is_prefix
  after_gt-Free-quot =
      keep-Free b'>' quot gt after_lt (omega arith) (λ rest h. ground arith)
        (keep-Free b'<' quot lt after_amp (omega arith) (λ rest h. ground arith)
          (escape_amp-Free b'&' amp quot text (λ rest h. ground arith)))

  take_back :
      (c : ℕ) (name xs : Text)
      → Without b'&' name
      → Free (entity name) xs
      → replace_text (entity name) c (replace_unit c (entity name) xs) ≡ xs
  unfolding replace_text
  take_back c name xs w h = restore c b'&' name xs w (Kept-of-Free c (entity name) xs h)

  take_back_amp : replace_text (entity amp) b'&' after_amp ≡ text
  unfolding replace_text
  take_back_amp = restore b'&' b'&' amp text (omega arith) (Kept-self b'&' amp text)

-- Decoding an escaped text gives the text back, whatever it holds.
pub decode-escape : (text : Text) → decode_xml_text (escape_xml_text text) ≡ text
unfolding decode_xml_text escape_xml_text
decode-escape text =
    rw
      (
        take_back text b'"' quot (after_gt text) (omega arith) (after_gt-Free-quot text),
        take_back text b'>' gt (after_lt text) (omega arith) (after_lt-Free-gt text),
        take_back text b'<' lt (after_amp text) (omega arith) (after_amp-Free-lt text),
      )
      (take_back_amp text)
