-- ===== src/Statusline/Tests.antt =====
-- A status line on a terminal whose characters all have the width 1, and the theorems at it.
use pi_dotfiles.Prelude.{
  ℕ, zero, suc, ◌+◌, ◌-◌, ◌≤◌, ◌≡◌, ◌≢◌, refl, ap, arith, Bool, true, false, Option, none, some,
  List, [], ◌∷◌, ◌++◌, All, Text, codes, length, take, keep, take_all, length-take, length-append,
  join, ◌⊎◌,
}
use pi_dotfiles.Prelude.{◌↔◌}
use pi_dotfiles.Statusline.Features.{
  PullRequest, RepositoryStatus, McpStatus, FableRoutingStatus, LspClientSnapshot, LspStatus,
  repository_status, mcp_status, fable_routing_status, lsp_status,
}
use pi_dotfiles.Statusline.Features.Sound.{keys_exact}
use pi_dotfiles.Statusline.Layout
use pi_dotfiles.Statusline.Layout.{
  Terminal, Segment, SegmentId, SegmentContent, SegmentView, Rendered, Variant, build_left,
  render_status_line, render_segment_views, render_variant_segments, remaining_segments,
  choose_removal_index, is_too_wide, spaces,
}
use pi_dotfiles.Prelude.{not, text_discrete}
use pi_dotfiles.Prelude.Dict
use pi_dotfiles.Statusline.State.{StateKey, Store, get_state, update, set_state, update_reads}
use pi_dotfiles.Statusline.Layout.Removal.{IsOptionalAt, IsBelow, is_required, removed_first}
use pi_dotfiles.Statusline.Layout.Fit.{remaining_required, build_left-fits, both_regions}

abbrev plain : Terminal
plain = record {
  visible_width = λ text. length text;
  truncate_to_width = λ text width ellipsis. take width text;
  dim = λ text. text;
}

cut : (x : Text) (w : ℕ) (e : Text) → length (take w x) ≤ w
cut x w e = omega (arith, length-take w x)

length-spaces : (n : ℕ) → length (spaces n) ≡ n
unfolding spaces
length-spaces zero = refl
length-spaces (suc n) = ap (λ k. suc k) (length-spaces n)

joins : (l r : Text) (n : ℕ) → length (l ++ (spaces (suc n) ++ r)) ≡ length l + suc n + length r
joins l r n = omega (
  arith,
  length-append l (spaces (suc n) ++ r),
  length-append (spaces (suc n)) r,
  length-spaces (suc n),
)

abbrev segment : SegmentId → ℕ → ℕ → Option Bool → Text → Segment (Unit {0})
segment id order priority required text = record {
  id = id;
  order = order;
  drop_priority = priority;
  required = required;
  render = λ input. some (record { full = text; compact = none; minimal = none });
}

abbrev segments : List (Segment (Unit {0}))
segments =
    segment SegmentId.git 30 20 none (codes "main")
    ∷ segment SegmentId.model 0 0 (some true) (codes "gpt")
    ∷ segment SegmentId.lsp 50 40 none (codes "ts")
    ∷ []

abbrev views : List SegmentView
views = render_segment_views segments tt

-- What a layout computes with.
layout : Unit {0}
unfolding render_segment_views render_variant_segments choose_removal_index remaining_segments
    build_left render_status_line spaces join Layout.choose_from Layout.remove_at
    Layout.drop_segments Layout.join_segments Layout.fitted Layout.first_fitting
    Layout.layout_status_line Layout.variant_text
layout = tt

-- The segment with the highest priority goes first.
dropped_run : build_left plain views 10 ≡ codes "gpt │ main"
unfolding layout
dropped_run = refl

line_run : render_status_line plain segments tt 12 (codes "7") ≡ codes "gpt │ main 7"
unfolding layout
line_run = refl

removed_first_example :
    (p : ℕ) × IsOptionalAt 2 p (render_variant_segments views Variant.minimal)
    × All (IsBelow p) (render_variant_segments views Variant.minimal)
unfolding layout
removed_first_example = removed_first (render_variant_segments views Variant.minimal) 2 refl

remaining_required_example :
    (keep is_required (remaining_segments plain 10 views)
      ≡ keep is_required (render_variant_segments views Variant.minimal))
    × ((is_too_wide plain 10 (remaining_segments plain 10 views) ≡ false)
        ⊎ All (λ r. is_required r ≡ true) (remaining_segments plain 10 views))
remaining_required_example = remaining_required plain 10 views

build_left-fits_example : length (build_left plain views 10) ≤ 10
build_left-fits_example = build_left-fits plain cut refl views 10

left_is_there : build_left plain views 10 ≢ []
unfolding layout
left_is_there = cc

both_regions_example :
    (render_status_line plain segments tt 12 (codes "7")
      ≡ build_left plain views 10
        ++ (spaces (12 - length (build_left plain views 10) - 1) ++ codes "7"))
    × (length (render_status_line plain segments tt 12 (codes "7")) ≡ 12)
both_regions_example =
    both_regions plain cut refl segments tt 12 (codes "7") (λ x w e h. take_all w x h) joins
      left_is_there

abbrev bool_equals : Bool → Bool → Bool
bool_equals true b = b
bool_equals false b = not b

abbrev key : Text → StateKey Bool
key id = record { id = id; initial = false; equals = bool_equals }

abbrev store : Store Bool
store = record { snapshot = (codes "mcp", true) ∷ []; notified = 3 }

store_run :
    (set_state (key (codes "model")) true store).0
    ≡ record { snapshot = (codes "mcp", true) ∷ (codes "model", true) ∷ []; notified = 4 }
unfolding set_state update get_state Dict.get Dict.set text_discrete
store_run = refl

bool_equals_sound : (a b : Bool) → bool_equals a b ≡ true → a ≡ b
bool_equals_sound true true h = refl
bool_equals_sound true false h = absurd cc
bool_equals_sound false true h = absurd cc
bool_equals_sound false false h = refl

keys_differ : codes "mcp" ≢ codes "model"
keys_differ h =
    let shorter : length (codes "mcp") ≡ length (codes "model") = ap length h in
    absurd (omega arith)

update_reads_example :
    (get_state (update (key (codes "mcp")) not store).0.snapshot (key (codes "mcp"))
      ≡ not (get_state store.snapshot (key (codes "mcp"))))
    × (get_state (update (key (codes "mcp")) not store).0.snapshot (key (codes "model"))
        ≡ get_state store.snapshot (key (codes "model")))
update_reads_example =
    update_reads (key (codes "mcp")) (key (codes "model")) not store bool_equals_sound keys_differ

abbrev with_request : RepositoryStatus
with_request = record repository_status.initial { pull_request = PullRequest.opened 7 (codes "u") }

abbrev clients : List LspClientSnapshot
clients = record { id = codes "ts"; label = codes "ts" } ∷ []

keys_exact_example :
    ((repository_status.equals with_request repository_status.initial ≡ true)
      ↔ (with_request ≡ repository_status.initial))
    × ((mcp_status.equals (McpStatus.connected 1 2) (McpStatus.partially 1 2) ≡ true)
        ↔ (McpStatus.connected 1 2 ≡ McpStatus.partially 1 2))
    × ((fable_routing_status.equals FableRoutingStatus.ready (FableRoutingStatus.refused none)
          ≡ true)
        ↔ (FableRoutingStatus.ready ≡ FableRoutingStatus.refused none))
    × ((lsp_status.equals (LspStatus.running clients []) (LspStatus.running [] clients) ≡ true)
        ↔ (LspStatus.running clients [] ≡ LspStatus.running [] clients))
keys_exact_example =
    keys_exact with_request repository_status.initial (McpStatus.connected 1 2)
      (McpStatus.partially 1 2) FableRoutingStatus.ready (FableRoutingStatus.refused none)
      (LspStatus.running clients []) (LspStatus.running [] clients)
