-- ===== src/Registry/Overview.antt =====
-- `buildOverview` of herdr-subagent/overview.ts.
pub mod Rows
pub mod Render
pub mod Order
use pi_dotfiles.Prelude.{
  ℕ, zero, suc, ◌+◌, ◌-◌, ◌*◌, ◌/◌, ◌%◌, ◌≤◌, ◌≡◌, refl, Bool, true, false, ltb, if◌then◌else◌,
  Option, none, some, List, [], ◌∷◌, ◌++◌, Text, codes, length, text_discrete, pick, concat,
}
use pi_dotfiles.Registry.Types.{RegistryEntry, HerdrAgent, Phase, given}
use pi_dotfiles.Registry.Match.{MatchedRegistryAgent, match_entries_to_agents}

pub data RowKind : Type 0 where
  working blocked idle done unknown missing spawning : RowKind

pub record OverviewRow : Type 0 where
  pub name : Text
  pub kind : RowKind
  pub elapsed : Option ℕ
  pub model : Option Text
  pub thinking : Option Text

pub record Counts : Type 0 where
  pub working : ℕ
  pub blocked : ℕ
  pub idle : ℕ
  pub done : ℕ
  pub unknown : ℕ
  pub missing : ℕ
  pub spawning : ℕ

pub record Overview : Type 0 where
  pub rows : List OverviewRow
  pub counts : Counts
  pub at : ℕ

abbrev pub empty_counts : Counts
empty_counts = record {
  working = 0;
  blocked = 0;
  idle = 0;
  done = 0;
  unknown = 0;
  missing = 0;
  spawning = 0;
}

-- `counts[kind] += 1`
abbrev pub count_in : RowKind → Counts → Counts
count_in RowKind.working c = record c { working = suc c.working }
count_in RowKind.blocked c = record c { blocked = suc c.blocked }
count_in RowKind.idle c = record c { idle = suc c.idle }
count_in RowKind.done c = record c { done = suc c.done }
count_in RowKind.unknown c = record c { unknown = suc c.unknown }
count_in RowKind.missing c = record c { missing = suc c.missing }
count_in RowKind.spawning c = record c { spawning = suc c.spawning }

-- `counts[kind]`
abbrev pub count_of : Counts → RowKind → ℕ
count_of c RowKind.working = c.working
count_of c RowKind.blocked = c.blocked
count_of c RowKind.idle = c.idle
count_of c RowKind.done = c.done
count_of c RowKind.unknown = c.unknown
count_of c RowKind.missing = c.missing
count_of c RowKind.spawning = c.spawning

kind_for_status : Text → RowKind
kind_for_status t = pick (text_discrete t (codes "working")) RowKind.working (
    pick (text_discrete t (codes "blocked")) RowKind.blocked (
      pick (text_discrete t (codes "idle")) RowKind.idle
        (pick (text_discrete t (codes "done")) RowKind.done RowKind.unknown)))

unfoldable pub kind_for_agent : HerdrAgent → RowKind
unfolding kind_for_status
kind_for_agent a = elim (given a.agent_status) [
  | none ↦ RowKind.unknown
  | some t ↦ kind_for_status t
]

unfoldable pub kind_for_match : RegistryEntry → Option HerdrAgent → RowKind
kind_for_match e agent = elim e.phase [
  | some Phase.reserved ↦ RowKind.spawning
  | _ ↦ elim agent [ none ↦ RowKind.missing | some a ↦ kind_for_agent a ]
]

-- The runtime's `Date.parse`: the milliseconds of a date, or none for what is not one.
module _ (date_parse : Text → Option ℕ) where
  -- `Math.max(0, nowMs - createdAt)`
  unfoldable pub elapsed_since_created : RegistryEntry → ℕ → Option ℕ
  elapsed_since_created e now = elim (date_parse e.created_at) [
    | none ↦ none
    | some created ↦ some (now - created)
  ]

  unfoldable pub row_for : RegistryEntry → Option HerdrAgent → ℕ → OverviewRow
  row_for e agent now = record {
    name = e.name;
    kind = kind_for_match e agent;
    elapsed = elapsed_since_created e now;
    model = e.model;
    thinking = e.thinking;
  }

  unfoldable pub overview_rows : List MatchedRegistryAgent → ℕ → List OverviewRow
  overview_rows [] now = []
  overview_rows (m ∷ ms) now = elim m.entry [
    | none ↦ overview_rows ms now
    | some e ↦ row_for e m.agent now ∷ overview_rows ms now
  ]

  unfoldable pub overview_counts : List MatchedRegistryAgent → Counts → Counts
  overview_counts [] c = c
  overview_counts (m ∷ ms) c =
      overview_counts ms
        (elim m.entry [ none ↦ c | some e ↦ count_in (kind_for_match e m.agent) c ])

  unfoldable pub build_overview : List RegistryEntry → List HerdrAgent → ℕ → Overview
  build_overview entries agents now =
      let matches = match_entries_to_agents entries agents in
      record {
        rows = overview_rows matches now;
        counts = overview_counts matches empty_counts;
        at = now;
      }
