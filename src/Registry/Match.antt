-- ===== src/Registry/Match.antt =====
-- `matchEntriesToAgents` of herdr-subagent/store.ts.
pub mod Laws
pub mod Terminal
use pi_dotfiles.Prelude.{
  ℕ, zero, suc, ◌≡◌, Bool, true, false, not, ◌&&◌, ◌||◌, if◌then◌else◌, Option, none, some, List,
  [], ◌∷◌, ◌++◌, Text, ℕ_discrete, pick,
}
use pi_dotfiles.Prelude.KeySet
use pi_dotfiles.Registry.Types.{RegistryEntry, HerdrAgent, is_text, given, agrees}

pub record MatchedRegistryAgent : Type 0 where
  pub entry : Option RegistryEntry
  pub agent : Option HerdrAgent

-- `entries.findIndex(...)` together with the entry at the index; `from` is the index of the head.
unfoldable pub find_index :
    (ℕ → RegistryEntry → Bool) → (from : ℕ) → List RegistryEntry → Option (ℕ × RegistryEntry)
find_index p from [] = none
find_index p from (e ∷ es) =
    let rest = find_index p (suc from) es in if p from e then some (from, e) else rest

abbrev pub is_free : List ℕ → ℕ → Bool
is_free taken i = not (KeySet.has ℕ_discrete i taken)

-- The terminal's own entry, among those that are free.
abbrev pub by_terminal : List ℕ → Text → ℕ → RegistryEntry → Bool
by_terminal taken terminal i e = is_free taken i && is_text e.terminal_id terminal

abbrev pub has_no_terminal : RegistryEntry → Bool
has_no_terminal e = elim (given e.terminal_id) [ none ↦ true | some t ↦ false ]

-- A free legacy entry, without a terminal, that one of the agent's hints fits.
abbrev pub by_hint : List ℕ → HerdrAgent → ℕ → RegistryEntry → Bool
by_hint taken a i e =
    is_free taken i
    && has_no_terminal e
    && (agrees a.terminal_id e.target || agrees a.pane_id e.pane_id || agrees a.tab_id e.tab_id)

unfoldable pub match_terminal :
    List RegistryEntry → List ℕ → Option Text → Option (ℕ × RegistryEntry)
match_terminal entries taken none = none
match_terminal entries taken (some t) = find_index (by_terminal taken t) 0 entries

abbrev pub or_hint :
    List RegistryEntry
    → List ℕ
    → HerdrAgent
    → Option (ℕ × RegistryEntry)
    → Option (ℕ × RegistryEntry)
or_hint entries taken a (some hit) = some hit
or_hint entries taken a none = find_index (by_hint taken a) 0 entries

-- The entry that one agent is matched to.
unfoldable pub match_agent : List RegistryEntry → List ℕ → HerdrAgent → Option (ℕ × RegistryEntry)
match_agent entries taken a =
    or_hint entries taken a (match_terminal entries taken (given a.terminal_id))

-- The last loop: the entries that are still free, in order.
unfoldable pub unmatched_from : List ℕ → ℕ → List RegistryEntry → List MatchedRegistryAgent
unmatched_from taken from [] = []
unmatched_from taken from (e ∷ es) =
    let rest = unmatched_from taken (suc from) es in
    if is_free taken from then record { entry = some e; agent = none } ∷ rest else rest

-- The loop over the agents, and what follows it.
unfoldable pub match_from :
    List RegistryEntry → List ℕ → List HerdrAgent → List MatchedRegistryAgent
match_from entries taken [] = unmatched_from taken 0 entries
match_from entries taken (a ∷ others) = elim (match_agent entries taken a) [
  | none ↦ record { entry = none; agent = some a } ∷ match_from entries taken others
  | some (i, e) ↦
      record { entry = some e; agent = some a }
      ∷ match_from entries (KeySet.add ℕ_discrete i taken) others
]

unfoldable pub match_entries_to_agents :
    List RegistryEntry → List HerdrAgent → List MatchedRegistryAgent
match_entries_to_agents entries agents = match_from entries [] agents
