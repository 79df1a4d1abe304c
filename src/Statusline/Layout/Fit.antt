-- ===== src/Statusline/Layout/Fit.antt =====
-- The widths of the regions that `buildLeft` and `layoutStatusLine` draw.
use pi_dotfiles.Prelude.{
  ℕ, suc, ◌+◌, ◌-◌, ◌≤◌, ◌<◌, max, ◌≡◌, ◌≢◌, refl, sym, ap, ◌∙◌, true, false, leb, List, [], ◌∷◌,
  ◌++◌, All, arith, keep, length, Text, ◌⊎◌, inl, inr, Bool-cases,
}
use pi_dotfiles.Statusline.Layout.{
  Segment, SegmentView, Terminal, Variant, render_variant_segments, render_segment_views,
  remaining_segments, is_too_wide, fitted, first_fitting, build_left, layout_status_line,
  render_status_line, spaces, join_segments,
}
use pi_dotfiles.Statusline.Layout.Removal.{is_required, drop_segments-required}

length-render_variant_segments :
    (views : List SegmentView) (v : Variant)
    → length (render_variant_segments views v) ≡ length views
unfolding render_variant_segments
length-render_variant_segments [] v = refl
length-render_variant_segments (x ∷ xs) v = ap (λ n. suc n) (length-render_variant_segments xs v)

module _ (t : Terminal) where
  -- Whatever is dropped to fit a width, all required segments stay, in their order, and the dropping
  -- ends: what is left fits, or it is required.
  pub remaining_required :
      (available : ℕ) (views : List SegmentView)
      → let left = remaining_segments t available views in
        (keep is_required left ≡ keep is_required (render_variant_segments views Variant.minimal))
        × ((is_too_wide t available left ≡ false) ⊎ All (λ r. is_required r ≡ true) left)
  unfolding remaining_segments
  remaining_required available views =
      let count = length-render_variant_segments views Variant.minimal in
      drop_segments-required t (length views) available
        (render_variant_segments views Variant.minimal) (omega (arith, count))

  module _ (cut : (x : Text) (w : ℕ) (e : Text) → t.visible_width (t.truncate_to_width x w e) ≤ w)
      (blank : t.visible_width [] ≡ 0) where
    fitted-fits :
        (available : ℕ) (views : List SegmentView)
        → t.visible_width (fitted t available views) ≤ available
    unfolding fitted
    fitted-fits available views =
        let responsive = join_segments t (remaining_segments t available views) in
        let short = cut responsive available (t.dim (0x2026 ∷ [])) in
        elim (Bool-cases (leb (t.visible_width responsive) available)) [
          | inl e ↦ ground (arith, e, short)
          | inr e ↦ ground (arith, e, short)
        ]

    first_fitting-fits :
        (available : ℕ) (views : List SegmentView) (vs : List Variant)
        → t.visible_width (first_fitting t available views vs) ≤ available
    unfolding first_fitting
    first_fitting-fits available views [] = fitted-fits available views
    first_fitting-fits available views (v ∷ vs) =
        ground (arith, first_fitting-fits available views vs)

    -- If truncation keeps to its width and the empty text has none, the left region never takes more
    -- columns than are available.
    pub build_left-fits :
        (views : List SegmentView) (available : ℕ)
        → t.visible_width (build_left t views available) ≤ available
    unfolding build_left
    build_left-fits views available = ground (
      arith,
      blank,
      first_fitting-fits available views (Variant.full ∷ Variant.compact ∷ Variant.minimal ∷ []),
    )

    build_left-room :
        (views : List SegmentView) (available : ℕ)
        → build_left t views available ≢ []
        → 0 < available
    unfolding build_left
    build_left-room views available h = ground arith

    layout-room :
        (left right : Text) (width : ℕ)
        → left ≢ []
        → t.visible_width left + t.visible_width right < width
        → layout_status_line t left right width
          ≡ t.truncate_to_width
              (left
                ++ (spaces (max 1 (width - t.visible_width left - t.visible_width right)) ++ right))
              width
              []
    unfolding layout_status_line
    layout-room [] right width some_left room = absurd (some_left refl)
    layout-room (c ∷ left) right width some_left room = ground arith

    layout-whole :
        (left right : Text) (width : ℕ)
        → ((x : Text) (w : ℕ) (e : Text) → t.visible_width x ≤ w → t.truncate_to_width x w e ≡ x)
        → ((l r : Text) (n : ℕ)
            → t.visible_width (l ++ (spaces (suc n) ++ r))
              ≡ t.visible_width l + suc n + t.visible_width r)
        → left ≢ []
        → t.visible_width left + t.visible_width right < width
        → let n = width - t.visible_width left - t.visible_width right in
          (layout_status_line t left right width ≡ left ++ (spaces n ++ right))
          × (t.visible_width (layout_status_line t left right width) ≡ width)
    layout-whole left right width whole joins some_left room =
        let gap : ℕ = width - t.visible_width left - t.visible_width right in
        let line : ℕ → Text = λ n. left ++ (spaces n ++ right) in
        let positive : suc (gap - 1) ≡ gap = omega arith in
        let one : max 1 gap ≡ gap = omega arith in
        let exact : t.visible_width (line gap) ≡ width =
          ap (λ n. t.visible_width (line n)) (sym positive)
          ∙ joins left right (gap - 1)
          ∙ omega (arith, positive) in
        let shown : layout_status_line t left right width ≡ line gap =
          layout-room left right width some_left room
          ∙ ap (λ n. t.truncate_to_width (line n) width []) one
          ∙ whole (line gap) width [] (omega (arith, exact)) in
        (shown, ap t.visible_width shown ∙ exact)

    -- If the terminal library also leaves a text alone that fits, and a text has the widths of its
    -- parts where spaces separate them, then a left region that is not empty stands on the line whole,
    -- the right region is whole at its end, and the line is exactly as wide as asked.
    pub both_regions :
        {Input : Type 0} (segments : List (Segment Input)) (input : Input) (width : ℕ)
        (right : Text)
        → ((x : Text) (w : ℕ) (e : Text) → t.visible_width x ≤ w → t.truncate_to_width x w e ≡ x)
        → ((l r : Text) (n : ℕ)
            → t.visible_width (l ++ (spaces (suc n) ++ r))
              ≡ t.visible_width l + suc n + t.visible_width r)
        → build_left t (render_segment_views segments input) (width - t.visible_width right - 1)
          ≢ []
        → let left =
            build_left t
              (render_segment_views segments input)
              (width - t.visible_width right - 1) in
          let n = width - t.visible_width left - t.visible_width right in
          let line = render_status_line t segments input width right in
          (line ≡ left ++ (spaces n ++ right)) × (t.visible_width line ≡ width)
    unfolding render_status_line
    both_regions segments input width right whole joins some_left =
        let views = render_segment_views segments input in
        let available = width - t.visible_width right - 1 in
        let fits = build_left-fits views available in
        let room = build_left-room views available some_left in
        layout-whole (build_left t views available) right width whole joins some_left
          (omega (arith, fits, room))
