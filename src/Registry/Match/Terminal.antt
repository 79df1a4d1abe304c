-- ===== src/Registry/Match/Terminal.antt =====
-- The terminals in the result of `matchEntriesToAgents`.
use pi_dotfiles.Prelude.{
  ℕ, suc, ◌≡◌, Bool, true, Option, none, some, List, [], ◌∷◌, Text, arith, inl, inr, Option-cases,
  Bool-cases, All, ℕ_discrete,
}
use pi_dotfiles.Prelude.KeySet
use pi_dotfiles.Registry.Types.{RegistryEntry, HerdrAgent, is_text, given}
use pi_dotfiles.Registry.Match.{
  MatchedRegistryAgent, find_index, by_terminal, by_hint, match_terminal, match_agent,
  unmatched_from, match_from, match_entries_to_agents,
}

find_index_sound :
    (p : ℕ → RegistryEntry → Bool) (from : ℕ) (es : List RegistryEntry) (i : ℕ) (e : RegistryEntry)
    → find_index p from es ≡ some (i, e)
    → p i e ≡ true
unfolding find_index
find_index_sound p from [] i e h = cc
find_index_sound p from (x ∷ es) i e h = ground (arith, find_index_sound p (suc from) es i e)

given-some : (o : Option Text) (t : Text) → given o ≡ some t → o ≡ some t
given-some none t h = cc
given-some (some []) t h = cc
given-some (some (c ∷ u)) t h = h

is_text-some : (o : Option Text) (t : Text) → is_text o t ≡ true → o ≡ some t
is_text-some none t h = cc
is_text-some (some u) t h = ground arith

-- If the pair's entry has a terminal, it is the terminal of the pair's agent.
abbrev pub AgreesOnTerminal : MatchedRegistryAgent → Type 0
AgreesOnTerminal m =
    (e : RegistryEntry) (a : HerdrAgent) (t : Text)
    → m.entry ≡ some e
    → m.agent ≡ some a
    → given e.terminal_id ≡ some t
    → a.terminal_id ≡ some t

module _ (entries : List RegistryEntry) where
  matched-terminal :
      (taken : List ℕ) (a : HerdrAgent) (i : ℕ) (e : RegistryEntry) (t : Text)
      → match_agent entries taken a ≡ some (i, e)
      → given e.terminal_id ≡ some t
      → a.terminal_id ≡ some t
  unfolding match_agent match_terminal
  matched-terminal taken a i e t h g =
      elim (Option-cases (match_terminal entries taken (given a.terminal_id))) [
        | inl none_found ↦
            absurd (ground (arith, find_index_sound (by_hint taken a) 0 entries i e (ground arith)))
        | inr (hit, found) ↦ elim (Option-cases (given a.terminal_id)) [
          | inl no_terminal ↦ absurd (ground arith)
          | inr (u, terminal) ↦
              let own = find_index_sound (by_terminal taken u) 0 entries i e (ground arith) in
              ground (
                arith,
                own,
                is_text-some e.terminal_id u,
                given-some a.terminal_id u terminal,
                given-some e.terminal_id t g,
              )
        ]
      ]

  unmatched-All :
      (taken : List ℕ) (from : ℕ) (es : List RegistryEntry)
      → All AgreesOnTerminal (unmatched_from taken from es)
  unfolding unmatched_from
  unmatched-All taken from [] = tt
  unmatched-All taken from (e ∷ es) =
      let ih = unmatched-All taken (suc from) es in
      elim (Bool-cases (KeySet.has ℕ_discrete from taken)) [
        | inl h ↦ rw h ih
        | inr h ↦ rw h ((λ x a t _ no_agent _. cc), ih)
      ]

  match_from-All :
      (taken : List ℕ) (agents : List HerdrAgent)
      → All AgreesOnTerminal (match_from entries taken agents)
  unfolding match_from
  match_from-All taken [] = unmatched-All taken 0 entries
  match_from-All taken (a ∷ others) = elim (Option-cases (match_agent entries taken a)) [
    | inl e ↦ rw (e, match_from) ((λ x b t no_entry _ _. cc), match_from-All taken others)
    | inr ((i, r), e) ↦
        rw (e, match_from)
          (
            (λ x b t same_entry same_agent g.
                let found = matched-terminal taken a i r t e (ground arith) in ground arith),
            match_from-All (KeySet.add ℕ_discrete i taken) others,
          )
  ]

  -- Whatever the pane, tab and target hints say, an entry that has a terminal is attached only to the
  -- agent of that terminal.
  pub match-terminals :
      (agents : List HerdrAgent) → All AgreesOnTerminal (match_entries_to_agents entries agents)
  unfolding match_entries_to_agents
  match-terminals agents = match_from-All [] agents
