-- ===== src/Relay/Text.antt =====
-- The bounded texts of web-herdr-relay/normalization.ts.
use pi_dotfiles.Prelude.{
  ℕ, zero, suc, ◌-◌, Bool, not, leb, ltb, ◌==◌, ◌&&◌, ◌||◌, if◌then◌else◌, List, [], ◌∷◌, ◌++◌,
  Text, codes, length, take, keep, concat, is_empty, is_space, starts_with, trim,
}
use pi_dotfiles.Prelude.Regex.{
  Pattern, seq, alt, one, many, nothing, line_start, maybe, some_more, literal, times, at_most,
  is_lower, is_upper, is_digit, not_in, replace_all,
}

abbrev pub maximum_relay_text_length : ℕ
maximum_relay_text_length = 16000

-- `/[\u0000-\u0008\u000B-\u001F\u007F]/`
abbrev is_control : ℕ → Bool
is_control c = leb c 8 || (leb 0xb c && leb c 0x1f) || (c == 0x7f)

-- `text.replaceAll(path, by)` for a path that is not empty; `skip` counts what is left of a match.
replace_path : (path by : Text) → (skip : ℕ) → Text → Text
replace_path path by skip [] = []
replace_path path by (suc skip) (x ∷ xs) = replace_path path by skip xs
replace_path path by zero (x ∷ xs) =
    let hit = by ++ replace_path path by (length path - 1) xs in
    let miss = x ∷ replace_path path by 0 xs in if starts_with path (x ∷ xs) then hit else miss

redact_paths : List Text → Text → Text
unfolding replace_path
redact_paths [] text = text
redact_paths (path ∷ paths) text =
    if is_empty path
    then redact_paths paths text
    else redact_paths paths (replace_path path (codes "[redacted session path]") 0 text)

abbrev is_alphanumeric : ℕ → Bool
is_alphanumeric c = is_upper c || is_lower c || is_digit c

abbrev is_word_dash : ℕ → Bool
is_word_dash c = is_alphanumeric c || (c == b'_') || (c == b'-')

abbrev slash : Pattern
slash = one (λ c. (c == b'/') || (c == 92))

-- `(^|[^A-Za-z0-9./\\-])` with the flag m
upload_lead : Pattern
upload_lead =
    alt line_start
      (one (λ c. not (is_alphanumeric c || (c == b'.') || (c == b'/') || (c == 92) || (c == b'-'))))

-- `(?:(?:write-)?[0-9a-f-]{36}(?:-|\.[A-Za-z0-9]{1,16})?)?`
upload_file : Pattern
upload_file = maybe (
    seq (maybe (literal (codes "write-"))) (
      seq (times 36 (one (λ c. is_digit c || (leb b'a' c && leb c b'f') || (c == b'-')))) (
        maybe (
          alt (one (λ c. c == b'-')) (
            seq (one (λ c. c == b'.'))
              (seq (one is_alphanumeric) (at_most 15 (one is_alphanumeric))))))))

upload_path : Pattern
unfolding upload_file
upload_path = seq (maybe (seq (one (λ c. is_upper c || is_lower c)) (one (λ c. c == b':')))) (
    seq (many (seq slash (some_more (one (not_in (b'/' ∷ 92 ∷ 13 ∷ 10 ∷ b'"' ∷ 39 ∷ 96 ∷ [])))))) (
      seq slash (
        seq (literal (codes "web-herdr-uploads-")) (
          seq (some_more (one is_word_dash)) (
            seq slash (
              seq
                (maybe
                  (seq (literal (codes "command-")) (seq (some_more (one is_word_dash)) slash)))
                upload_file))))))

abbrev output_mark : Text
output_mark = codes "full output saved to:"

-- A unit of a pattern with the flags i and u: `s` is also the long s.
abbrev any_case : ℕ → ℕ → Bool
any_case x c = (c == x) || (is_lower x && (c == x - 32)) || ((x == b's') && (c == 0x17f))

literal_any_case : Text → Pattern
literal_any_case [] = nothing
literal_any_case (x ∷ xs) = seq (one (any_case x)) (literal_any_case xs)

-- `/full output saved to:\s*[^\s)\]}>,]+/giu`
output_path : Pattern
unfolding literal_any_case
output_path = seq (literal_any_case output_mark) (
    seq (many (one is_space))
      (some_more (one (λ c. not (is_space c) && not_in (b')' ∷ b']' ∷ b'}' ∷ b'>' ∷ b',' ∷ []) c))))

-- The text without control units and paths.
unfoldable pub redact : List Text → Text → Text
unfolding redact_paths upload_lead upload_path output_path replace_all
redact session_paths value =
    replace_all nothing output_path (codes "full output saved to: [redacted output path]") (
      replace_all upload_lead upload_path (codes "[redacted uploaded file path]/")
        (redact_paths session_paths (keep (λ c. not (is_control c)) value)))

abbrev is_high : ℕ → Bool
is_high c = leb 0xd800 c && leb c 0xdbff

abbrev is_low : ℕ → Bool
is_low c = leb 0xdc00 c && leb c 0xdfff

-- `Array.from(text)`: a pair of surrogates stays together.
unfoldable pub code_points : Text → List Text
code_points [] = []
code_points (x ∷ []) = (x ∷ []) ∷ []
code_points (x ∷ y ∷ text) =
    let pair = (x ∷ y ∷ []) ∷ code_points text in
    let single = (x ∷ []) ∷ code_points (y ∷ text) in if is_high x && is_low y then pair else single

pub record Bounded : Type 0 where
  pub text : Text
  pub truncated : Bool

unfoldable pub bound_text : Text → (maximum : ℕ) → List Text → Bounded
bound_text value maximum session_paths =
    let points = code_points (redact session_paths value) in
    record { text = concat (take maximum points); truncated = ltb maximum (length points) }

unfoldable pub bounded_text : Text → (maximum : ℕ) → List Text → Text
bounded_text value maximum session_paths = (bound_text value maximum session_paths).text

unfoldable pub bounded_identifier : Text → (prefix : Text) → Text
bounded_identifier value prefix =
    let normalized = trim (bounded_text value 120 []) in
    if is_empty normalized then prefix ++ codes "-unknown" else normalized
