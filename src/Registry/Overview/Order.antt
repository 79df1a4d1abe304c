-- ===== src/Registry/Overview/Order.antt =====
-- Which rows `renderOverview` of herdr-subagent/overview.ts shows.
use mathlib.Core.List.{Perm}
use pi_dotfiles.Prelude.{
  ℕ, ◌-◌, ◌≤◌, ◌≡◌, refl, ap, subst, sym, ◌∙◌, min, Bool, true, false, if◌then◌else◌, Option, none,
  some, List, [], ◌∷◌, ◌++◌, map, Text, All, length, take, drop, arith, is_empty, length-take,
  length-drop,
}
use pi_dotfiles.Prelude.Sort.{
  AtLeast, InOrder, InOrder-take, take-AtLeast, take-append-drop, length-sort, sort-InOrder,
  sort-Perm,
}
use pi_dotfiles.Registry.Overview.{OverviewRow, Overview}
use pi_dotfiles.Registry.Overview.Render.{
  Theme, sort_rank, row_le, sorted_rows, header, more_line, row_line, widest, truncate_name,
  meta_for, lines_of, render_overview,
}

-- The urgency of a row: blocked rows rank first.
abbrev pub rank_of : OverviewRow → ℕ
rank_of r = sort_rank r.kind

module _ (le : Text → Text → Bool) where
  row_le-under : (a b : OverviewRow) → row_le le a b ≡ true → rank_of a ≤ rank_of b
  row_le-under a b t = ground arith

  row_le-over : (a b : OverviewRow) → row_le le a b ≡ false → rank_of b ≤ rank_of a
  row_le-over a b f = ground arith

  sorted_rows-InOrder : (rows : List OverviewRow) → InOrder rank_of (sorted_rows le rows)
  unfolding sorted_rows
  sorted_rows-InOrder rows = sort-InOrder (row_le le) rank_of row_le-under row_le-over rows

if-false : {A : Type 0} (b : Bool) (x y : A) → b ≡ false → (if b then x else y) ≡ y
if-false true x y e = absurd cc
if-false false x y e = refl

module _ (show : ℕ → Text) (theme : Theme) where
  -- The lines that a header with these rows and this number of hidden rows takes.
  abbrev pub drawn : (age hidden : ℕ) → Overview → List OverviewRow → List Text
  drawn age hidden o visible =
      header show theme o.counts
      ∷ (map
            (row_line show theme age (widest (λ r. truncate_name r.name) visible)
              (widest meta_for visible))
            visible
          ++ more_line show theme hidden)

  module _ (le : Text → Text → Bool) where
    lines_of-drawn :
        (shown age : ℕ) (o : Overview)
        → lines_of show theme le shown age o
          ≡ drawn age
              (length (drop shown (sorted_rows le o.rows)))
              o
              (take shown (sorted_rows le o.rows))
    unfolding lines_of
    lines_of-drawn shown age o =
        let sorted = sorted_rows le o.rows in
        let count : length sorted - length (take shown sorted) ≡ length (drop shown sorted) =
          omega (arith, length-take shown sorted, length-drop shown sorted) in
        ap (λ n. drawn age n o (take shown sorted)) count

    -- An overview with rows is drawn as a header, the rows that are shown, and a line with the number
    -- of the rows that are hidden, if there are any. Together these are the rows of the overview; the
    -- first `max_rows`, or 6 where it is not given, are shown, in the order of their rank, and no
    -- hidden row ranks before a row that is shown.
    pub render_overview-shows :
        (max_rows now : Option ℕ) (o : Overview)
        → is_empty o.rows ≡ false
        → (let shown = elim max_rows as (λ _. ℕ) [ none ↦ 6 | some n ↦ n ] in
            let age = elim now as (λ _. ℕ) [ none ↦ 0 | some t ↦ t - o.at ] in
            (visible : List OverviewRow) × (hidden : List OverviewRow) × (render_overview show theme
                le max_rows now o
              ≡ drawn age (length hidden) o visible)
            × Perm (visible ++ hidden) o.rows
            × (length visible ≡ min shown (length o.rows))
            × InOrder rank_of visible
            × All (λ v. AtLeast rank_of (rank_of v) hidden) visible)
    unfolding render_overview sorted_rows
    render_overview-shows max_rows now o some_rows =
        let shown = elim max_rows as (λ _. ℕ) [ none ↦ 6 | some n ↦ n ] in
        let sorted = sorted_rows le o.rows in
        let ordered = sorted_rows-InOrder le o.rows in
        (
          take shown sorted,
          drop shown sorted,
          if-false (is_empty o.rows) [] _ some_rows ∙ lines_of-drawn shown _ o,
          subst (λ l. Perm l o.rows) (sym (take-append-drop shown sorted))
              (sort-Perm (row_le le) o.rows),
          omega (arith, length-take shown sorted, length-sort (row_le le) o.rows),
          InOrder-take rank_of shown sorted ordered,
          take-AtLeast rank_of shown sorted ordered,
        )
