-- ===== src/Registry/Overview/Render.antt =====
-- `renderOverview` of herdr-subagent/overview.ts.
use pi_dotfiles.Prelude.{
  ℕ, zero, suc, ◌+◌, ◌-◌, ◌/◌, ◌%◌, max, Bool, true, false, ltb, ◌==◌, ◌||◌, if◌then◌else◌, Option,
  none, some, List, [], ◌∷◌, ◌++◌, map, Text, codes, length, take, sort_by, join, is_empty,
}
use pi_dotfiles.Registry.Overview.{RowKind, OverviewRow, Counts, Overview, count_of}

pub data ThemeRole : Type 0 where
  text accent muted dim success error warning : ThemeRole

pub record Theme : Type 0 where
  pub fg : ThemeRole → Text → Text
  pub bold : Text → Text

pub record KindStyle : Type 0 where
  pub glyph : Text
  pub glyph_role : ThemeRole
  pub name_role : ThemeRole
  pub is_bold : Bool

abbrev style : Text → ThemeRole → ThemeRole → Bool → KindStyle
style glyph glyph_role name_role is_bold = record {
  glyph = glyph;
  glyph_role = glyph_role;
  name_role = name_role;
  is_bold = is_bold;
}

unfoldable pub style_of : RowKind → KindStyle
style_of RowKind.blocked = style (codes "⚠") ThemeRole.warning ThemeRole.warning true
style_of RowKind.working = style (codes "●") ThemeRole.accent ThemeRole.text false
style_of RowKind.spawning = style (codes "◌") ThemeRole.dim ThemeRole.dim false
style_of RowKind.done = style (codes "✓") ThemeRole.success ThemeRole.muted false
style_of RowKind.idle = style (codes "○") ThemeRole.muted ThemeRole.muted false
style_of RowKind.unknown = style (codes "?") ThemeRole.dim ThemeRole.dim false
style_of RowKind.missing = style (codes "✗") ThemeRole.error ThemeRole.error false

abbrev pub overview_kind_order : List RowKind
overview_kind_order =
    RowKind.blocked ∷ RowKind.working ∷ RowKind.spawning ∷ RowKind.done ∷ RowKind.idle
    ∷ RowKind.unknown ∷ RowKind.missing ∷ []

-- `ROW_SORT_ORDER.indexOf(kind)`
unfoldable pub sort_rank : RowKind → ℕ
sort_rank RowKind.blocked = 0
sort_rank RowKind.working = 1
sort_rank RowKind.spawning = 2
sort_rank RowKind.done = 3
sort_rank RowKind.idle = 4
sort_rank RowKind.unknown = 5
sort_rank RowKind.missing = 6

-- A text that is cut to a width, with an ellipsis for what is gone.
abbrev ellipsis_at : ℕ → Text → Text
ellipsis_at width t = if ltb width (length t) then take (width - 1) t ++ (0x2026 ∷ []) else t

unfoldable pub truncate_name : Text → Text
truncate_name name = ellipsis_at 22 name

has_slash : Text → Bool
has_slash [] = false
has_slash (x ∷ xs) = let rest = has_slash xs in (x == b'/') || rest

-- `model.slice(model.lastIndexOf("/") + 1)`
unfoldable pub short_model : Text → Text
unfolding has_slash
short_model [] = []
short_model (x ∷ xs) =
    let rest = short_model xs in if (x == b'/') || has_slash xs then rest else x ∷ rest

unfoldable pub meta_for : OverviewRow → Text
unfolding short_model
meta_for row =
    let model = elim row.model as (λ _. List Text) [ none ↦ [] | some m ↦ short_model m ∷ [] ] in
    let thinking = elim row.thinking as (λ _. List Text) [ none ↦ [] | some t ↦ t ∷ [] ] in
    ellipsis_at 24 (join (0xb7 ∷ []) (model ++ thinking))

spaces : ℕ → Text
spaces zero = []
spaces (suc n) = 32 ∷ spaces n

-- `text.padEnd(width)`
abbrev pad_end : ℕ → Text → Text
pad_end width t = t ++ spaces (width - length t)

abbrev pub widest : (OverviewRow → Text) → List OverviewRow → ℕ
widest text_of [] = 0
widest text_of (r ∷ rs) = max (length (text_of r)) (widest text_of rs)

-- `le` says that `localeCompare` of two names is not positive.
abbrev pub row_le : (Text → Text → Bool) → OverviewRow → OverviewRow → Bool
row_le le a b =
    if sort_rank a.kind == sort_rank b.kind
    then le a.name b.name
    else ltb (sort_rank a.kind) (sort_rank b.kind)

unfoldable pub sorted_rows : (Text → Text → Bool) → List OverviewRow → List OverviewRow
unfolding sort_rank
sorted_rows le rows = sort_by (row_le le) rows

-- `show` is the runtime's decimal notation.
module _ (show : ℕ → Text) where
  -- `String(n).padStart(2, "0")`
  abbrev two_digits : ℕ → Text
  two_digits n = elim (show n) [
    | [] ↦ codes "00"
    | x ∷ xs ↦ if is_empty xs then b'0' ∷ x ∷ [] else x ∷ xs
  ]

  unfoldable pub format_elapsed : Option ℕ → Text
  format_elapsed none = codes "-"
  format_elapsed (some ms) =
      let seconds = ms / 1000 in
      let minutes = seconds / 60 in
      if ltb seconds 60
      then show seconds ++ codes "s"
      else if ltb minutes 60
      then show minutes ++ (codes "m" ++ (two_digits (seconds % 60) ++ codes "s"))
      else show (minutes / 60) ++ (codes "h" ++ (two_digits (minutes % 60) ++ codes "m"))

module _ (show : ℕ → Text) (theme : Theme) where
  paint : ThemeRole → Bool → Text → Text
  paint role bold t = theme.fg role (if bold then theme.bold t else t)

  chips_of : Counts → List RowKind → List Text
  unfolding paint style_of
  chips_of counts [] = []
  chips_of counts (k ∷ ks) =
      let others = chips_of counts ks in
      let s = style_of k in
      let chip = paint s.glyph_role s.is_bold (s.glyph ++ (32 ∷ show (count_of counts k))) in
      if count_of counts k == 0 then others else chip ∷ others

  unfoldable pub header : Counts → Text
  unfolding chips_of
  header counts =
      theme.fg ThemeRole.dim (codes "subagents")
      ++ (codes "  " ++ join (codes "  ") (chips_of counts overview_kind_order))

  unfoldable pub row_line : (age name_width meta_width : ℕ) → OverviewRow → Text
  unfolding paint style_of format_elapsed truncate_name meta_for spaces
  row_line age name_width meta_width row =
      let s = style_of row.kind in
      let glyph = paint s.glyph_role s.is_bold s.glyph in
      let name = paint s.name_role s.is_bold (pad_end name_width (truncate_name row.name)) in
      let meta = theme.fg ThemeRole.dim (pad_end meta_width (meta_for row)) in
      let elapsed = elim row.elapsed as (λ _. Option ℕ) [
        | none ↦ none
        | some ms ↦ some (ms + age)
      ] in
      let suffix = elim row.kind as (λ _. Text) [
        | RowKind.blocked ↦ codes "  " ++ paint ThemeRole.warning true (codes "blocked")
        | _ ↦ []
      ] in
      codes "  "
      ++ (glyph
          ++ (codes " "
              ++ (name
                  ++ ((if ltb 0 meta_width then codes "  " ++ meta else [])
                      ++ (codes "  "
                          ++ (theme.fg ThemeRole.dim (format_elapsed show elapsed) ++ suffix))))))

  unfoldable pub more_line : ℕ → List Text
  more_line zero = []
  more_line (suc n) =
      (codes "  " ++ theme.fg ThemeRole.dim (codes "+" ++ (show (suc n) ++ codes " more"))) ∷ []

  -- The lines for `shown` of the rows, `age` milliseconds after the overview was made.
  unfoldable pub lines_of : (Text → Text → Bool) → (shown age : ℕ) → Overview → List Text
  unfolding sorted_rows header row_line more_line truncate_name meta_for
  lines_of le shown age o =
      let sorted = sorted_rows le o.rows in
      let visible = take shown sorted in
      let name_width = widest (λ r. truncate_name r.name) visible in
      let meta_width = widest meta_for visible in
      header o.counts
      ∷ (map (row_line age name_width meta_width) visible
          ++ more_line (length sorted - length visible))

  -- `renderOverview`; `max_rows` and `now` are the options where they are given.
  unfoldable pub render_overview :
      (Text → Text → Bool) → (max_rows now : Option ℕ) → Overview → List Text
  unfolding lines_of
  render_overview le max_rows now o =
      let shown = elim max_rows as (λ _. ℕ) [ none ↦ 6 | some n ↦ n ] in
      let age = elim now as (λ _. ℕ) [ none ↦ 0 | some t ↦ t - o.at ] in
      if is_empty o.rows then [] else lines_of le shown age o
