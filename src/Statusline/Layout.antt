-- ===== src/Statusline/Layout.antt =====
-- statusline/core/layout.ts, over the segments of segment.ts.
pub mod Removal
pub mod Fit
use pi_dotfiles.Prelude.{
  ℕ, zero, suc, ◌+◌, ◌-◌, max, Bool, true, false, not, leb, ltb, ◌||◌, if◌then◌else◌, Option, none,
  some, List, [], ◌∷◌, ◌++◌, Text, codes, length, map, join, is_empty,
}

pub data SegmentId : Type 0 where
  model effort fable_routing directory git pull_request lsp mcp session : SegmentId

pub record SegmentContent : Type 0 where
  pub full : Text
  pub compact : Option Text
  pub minimal : Option Text

-- A segment. `Input` is what it is drawn from: the snapshot and the render context.
pub record Segment (Input : Type 0) : Type 0 where
  pub id : SegmentId
  pub order : ℕ
  pub drop_priority : ℕ
  pub required : Option Bool
  pub render : Input → Option SegmentContent

pub record SegmentView : Type 0 where
  pub content : SegmentContent
  pub id : SegmentId
  pub order : ℕ
  pub drop_priority : ℕ
  pub required : Bool

pub data Variant : Type 0 where
  full compact minimal : Variant

-- A view with the text of its variant.
pub record Rendered : Type 0 where
  pub view : SegmentView
  pub text : Text

-- What the terminal library and the theme offer: `visibleWidth`, `truncateToWidth` and
-- `theme.fg("dim", ...)`.
pub record Terminal : Type 0 where
  pub visible_width : Text → ℕ
  pub truncate_to_width : Text → ℕ → Text → Text
  pub dim : Text → Text

view_of : {Input : Type 0} → Segment Input → SegmentContent → SegmentView
view_of s c = record {
  content = c;
  id = s.id;
  order = s.order;
  drop_priority = s.drop_priority;
  required = elim s.required [ none ↦ false | some b ↦ b ];
}

-- The stable sort by `order`.
insert_view : SegmentView → List SegmentView → List SegmentView
insert_view v [] = v ∷ []
insert_view v (w ∷ ws) =
    let rest = insert_view v ws in if leb v.order w.order then v ∷ w ∷ ws else w ∷ rest

sort_views : List SegmentView → List SegmentView
unfolding insert_view
sort_views [] = []
sort_views (v ∷ vs) = insert_view v (sort_views vs)

views_of : {Input : Type 0} → List (Segment Input) → Input → List SegmentView
unfolding view_of
views_of [] input = []
views_of (s ∷ ss) input = elim (s.render input) [
  | none ↦ views_of ss input
  | some c ↦ view_of s c ∷ views_of ss input
]

unfoldable pub render_segment_views :
    {Input : Type 0} → List (Segment Input) → Input → List SegmentView
unfolding views_of sort_views
render_segment_views segments input = sort_views (views_of segments input)

abbrev or_text : Option Text → Text → Text
or_text none t = t
or_text (some s) t = s

-- `segment[variant] ?? segment.compact ?? segment.full`
unfoldable pub variant_text : Variant → SegmentContent → Text
variant_text Variant.full c = c.full
variant_text Variant.compact c = or_text c.compact c.full
variant_text Variant.minimal c = or_text c.minimal (or_text c.compact c.full)

unfoldable pub render_variant_segments : List SegmentView → Variant → List Rendered
unfolding variant_text
render_variant_segments views variant =
    map (λ v. record { view = v; text = variant_text variant v.content }) views

-- The loop of `chooseRemovalIndex`: the index and the priority selected so far; no priority stands
-- for negative infinity.
unfoldable pub choose_from : ℕ → Option (ℕ × ℕ) → List Rendered → Option (ℕ × ℕ)
choose_from index selected [] = selected
choose_from index selected (r ∷ rs) =
    let skip = choose_from (suc index) selected rs in
    let take_it = choose_from (suc index) (some (index, r.view.drop_priority)) rs in
    if r.view.required then skip else elim selected [
      | none ↦ take_it
      | some (i, priority) ↦ if leb priority r.view.drop_priority then take_it else skip
    ]

unfoldable pub choose_removal_index : List Rendered → Option ℕ
unfolding choose_from
choose_removal_index rs = elim (choose_from 0 none rs) [ none ↦ none | some (i, p) ↦ some i ]

-- `remaining.splice(index, 1)`
unfoldable pub remove_at {ℓ} : {A : Type ℓ} → ℕ → List A → List A
remove_at i [] = []
remove_at zero (x ∷ xs) = xs
remove_at (suc i) (x ∷ xs) = x ∷ remove_at i xs

unfoldable pub spaces : ℕ → Text
spaces zero = []
spaces (suc n) = 32 ∷ spaces n

module _ (t : Terminal) where
  unfoldable pub join_segments : List Rendered → Text
  unfolding join
  join_segments rs = join (t.dim (32 ∷ 0x2502 ∷ 32 ∷ [])) (map (λ r. r.text) rs)

  abbrev pub is_too_wide : ℕ → List Rendered → Bool
  is_too_wide available rs = ltb available (t.visible_width (join_segments rs))

  -- The while loop of `buildLeft`; each round takes fuel.
  unfoldable pub drop_segments : ℕ → ℕ → List Rendered → List Rendered
  drop_segments zero available rs = rs
  drop_segments (suc fuel) available rs =
      if is_too_wide available rs
      then elim (choose_removal_index rs) [
        | none ↦ rs
        | some i ↦ drop_segments fuel available (remove_at i rs)
      ]
      else rs

  -- What the loop leaves of the segments; it goes round at most once for each of them.
  unfoldable pub remaining_segments : ℕ → List SegmentView → List Rendered
  unfolding render_variant_segments
  remaining_segments available views =
      drop_segments (length views) available (render_variant_segments views Variant.minimal)

  unfoldable pub fitted : ℕ → List SegmentView → Text
  unfolding remaining_segments
  fitted available views =
      let responsive = join_segments (remaining_segments available views) in
      if leb (t.visible_width responsive) available
      then responsive
      else t.truncate_to_width responsive available (t.dim (0x2026 ∷ []))

  -- The first variant that fits, and what follows the loop over them.
  unfoldable pub first_fitting : ℕ → List SegmentView → List Variant → Text
  unfolding render_variant_segments fitted
  first_fitting available views [] = fitted available views
  first_fitting available views (v ∷ vs) =
      let joined = join_segments (render_variant_segments views v) in
      if leb (t.visible_width joined) available then joined else first_fitting available views vs

  unfoldable pub build_left : List SegmentView → ℕ → Text
  unfolding first_fitting
  build_left views available =
      if leb available 0 || is_empty views
      then []
      else first_fitting available views (Variant.full ∷ Variant.compact ∷ Variant.minimal ∷ [])

  -- The right region alone, where there is no left one or no room for it.
  abbrev pub right_only : Text → ℕ → Text
  right_only right width = t.truncate_to_width right width (t.dim (0x2026 ∷ []))

  unfoldable pub layout_status_line : (left right : Text) → ℕ → Text
  unfolding spaces
  layout_status_line left right width =
      if leb width 0
      then []
      else if is_empty left || leb width (t.visible_width right)
      then right_only right width
      else t.truncate_to_width
          (left ++ (spaces (max 1 (width - t.visible_width left - t.visible_width right)) ++ right))
          width []

  -- The line of a status line whose context has this width.
  unfoldable pub render_status_line :
      {Input : Type 0} → List (Segment Input) → Input → (width : ℕ) → (right : Text) → Text
  unfolding render_segment_views build_left layout_status_line
  render_status_line segments input width right =
      layout_status_line
        (build_left (render_segment_views segments input) (width - t.visible_width right - 1)) right
        width
