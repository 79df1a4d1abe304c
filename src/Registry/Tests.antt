-- ===== src/Registry/Tests.antt =====
-- Runs of the registry's functions, and its theorems at concrete entries.
use mathlib.Core.List.{Perm}
use pi_dotfiles.Prelude.{
  ℕ, ◌≡◌, ◌≤◌, refl, true, false, Option, none, some, List, [], ◌∷◌, ◌++◌, Text, codes, All, length,
  text_discrete, ℕ_discrete, ◌⊎◌, ◌+◌, min, starts_with,
}
use pi_dotfiles.Prelude.KeySet
use pi_dotfiles.Registry.Types.{RegistryEntry, HerdrAgent, Phase}
use pi_dotfiles.Registry.Lookup.{
  find_entry, is_subagent_name, IsSafeUnit, is_subagent_name_safe, is_named, is_terminal,
  find_entry_priority,
}
use pi_dotfiles.Registry.Match.{
  match_entries_to_agents, match_from, match_agent, match_terminal, find_index, unmatched_from,
}
use pi_dotfiles.Registry.Match.Laws.{entries_of, agents_of, match-agents, match-entries-perm}
use pi_dotfiles.Registry.Match.Terminal.{AgreesOnTerminal, match-terminals}
use pi_dotfiles.Registry.Overview.{
  overview_rows, Overview, OverviewRow, build_overview, count_of, RowKind,
}
use pi_dotfiles.Registry.Overview.Render.{Theme, render_overview}
use pi_dotfiles.Registry.Overview.Order.{rank_of, drawn, render_overview-shows}
use pi_dotfiles.Prelude.Sort.{AtLeast, InOrder}
use pi_dotfiles.Registry.Overview.Rows.{rows_of, overview_counts_rows}

abbrev entry : Text → Option Text → Option Text → RegistryEntry
entry name terminal tab = record {
  name = name;
  phase = some Phase.active;
  owner_pane_id = none;
  target = none;
  pane_id = none;
  tab_id = tab;
  workspace_id = none;
  terminal_id = terminal;
  cwd = codes "/";
  label = name;
  worktree = none;
  agent_type = none;
  model = none;
  thinking = none;
  task_file = codes "t";
  system_prompt_file = none;
  created_at = codes "c";
  updated_at = codes "u";
}

abbrev agent : Option Text → HerdrAgent
agent terminal = record {
  pane_id = none;
  terminal_id = terminal;
  tab_id = some (codes "tab");
  workspace_id = none;
  agent_status = some (codes "working");
}

abbrev legacy : RegistryEntry
legacy = entry (codes "old") none (some (codes "tab"))

abbrev durable : RegistryEntry
durable = entry (codes "new") (some (codes "term")) (some (codes "tab"))

abbrev entries : List RegistryEntry
entries = legacy ∷ durable ∷ []

abbrev agents : List HerdrAgent
agents = agent (some (codes "term")) ∷ agent none ∷ agent none ∷ []

-- The terminal wins for the first agent, the tab serves the second, and the third stays alone.
match_run :
    match_entries_to_agents entries agents
    ≡ record { entry = some durable; agent = some (agent (some (codes "term"))) }
      ∷ record { entry = some legacy; agent = some (agent none) }
      ∷ record { entry = none; agent = some (agent none) }
      ∷ []
unfolding match_entries_to_agents match_from match_agent match_terminal find_index unmatched_from
    KeySet.has KeySet.add text_discrete ℕ_discrete
match_run = refl

match-agents_example : agents_of (match_entries_to_agents entries agents) ≡ agents
match-agents_example = match-agents entries agents

match-entries-perm_example : Perm (entries_of (match_entries_to_agents entries agents)) entries
match-entries-perm_example = match-entries-perm entries agents

match-terminals_example : All AgreesOnTerminal (match_entries_to_agents entries agents)
match-terminals_example = match-terminals entries agents

is_subagent_name_safe_example :
    All IsSafeUnit (codes "sub-1.a")
    × (1 ≤ length (codes "sub-1.a"))
    × (length (codes "sub-1.a") ≤ 64)
    × (starts_with (codes ".") (codes "sub-1.a") ≡ false)
unfolding is_subagent_name
is_subagent_name_safe_example = is_subagent_name_safe (codes "sub-1.a") refl

find_entry_priority_example :
    ((is_named entries (codes "term") ≡ true) × (durable.name ≡ codes "term"))
    ⊎ ((is_named entries (codes "term") ≡ false)
        × (is_terminal entries (codes "term") ≡ true)
        × (durable.terminal_id ≡ some (codes "term")))
    ⊎ ((is_named entries (codes "term") ≡ false)
        × (is_terminal entries (codes "term") ≡ false)
        × ((durable.target ≡ some (codes "term"))
            ⊎ (durable.pane_id ≡ some (codes "term"))
            ⊎ (durable.tab_id ≡ some (codes "term"))))
unfolding find_entry text_discrete
find_entry_priority_example = find_entry_priority entries (codes "term") durable refl

abbrev no_date : Text → Option ℕ
no_date t = none

overview_counts_rows_example :
    count_of (build_overview no_date entries agents 5).counts RowKind.working
    ≡ rows_of RowKind.working (build_overview no_date entries agents 5).rows
overview_counts_rows_example = overview_counts_rows no_date entries agents 5 RowKind.working

-- A theme that marks the bold texts only.
abbrev theme : Theme
theme = record { fg = λ role t. t; bold = λ t. b'*' ∷ t }

abbrev seen_overview : Overview
seen_overview = build_overview no_date entries agents 5

render_overview-shows_example :
    (visible : List OverviewRow) × (hidden : List OverviewRow) × (render_overview
        (λ n. (48 + n) ∷ [])
        theme
        (λ a b. true)
        (some 1)
        none
        seen_overview
      ≡ drawn (λ n. (48 + n) ∷ []) theme 0 (length hidden) seen_overview visible)
    × Perm (visible ++ hidden) seen_overview.rows
    × (length visible ≡ min 1 (length seen_overview.rows))
    × InOrder rank_of visible
    × All (λ v. AtLeast rank_of (rank_of v) hidden) visible
unfolding build_overview overview_rows match_entries_to_agents match_from match_agent match_terminal
    find_index KeySet.has text_discrete
render_overview-shows_example =
    render_overview-shows (λ n. (48 + n) ∷ []) theme (λ a b. true) (some 1) none seen_overview refl
