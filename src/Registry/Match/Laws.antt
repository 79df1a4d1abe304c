-- ===== src/Registry/Match/Laws.antt =====
-- The agents and the entries in the result of `matchEntriesToAgents`.
use mathlib.Core.List.{Perm}
use mathlib.Core.List.Perm
use pi_dotfiles.Prelude.{
  ℕ, suc, ◌≤◌, ◌<◌, ◌≡◌, refl, ap, subst, Bool, true, false, none, some, List, [], ◌∷◌, arith,
  ℕ_discrete, inl, inr, Option-cases, Bool-cases,
}
use pi_dotfiles.Prelude.KeySet
use pi_dotfiles.Registry.Types.{RegistryEntry, HerdrAgent, given}
use pi_dotfiles.Registry.Match.{
  MatchedRegistryAgent, find_index, is_free, by_terminal, by_hint, match_terminal, match_agent,
  unmatched_from, match_from, match_entries_to_agents,
}

abbrev pub entries_of : List MatchedRegistryAgent → List RegistryEntry
entries_of [] = []
entries_of (m ∷ ms) = elim m.entry [ none ↦ entries_of ms | some e ↦ e ∷ entries_of ms ]

abbrev pub agents_of : List MatchedRegistryAgent → List HerdrAgent
agents_of [] = []
agents_of (m ∷ ms) = elim m.agent [ none ↦ agents_of ms | some a ↦ a ∷ agents_of ms ]

agents_of-unmatched :
    (taken : List ℕ) (from : ℕ) (es : List RegistryEntry)
    → agents_of (unmatched_from taken from es) ≡ []
unfolding unmatched_from
agents_of-unmatched taken from [] = refl
agents_of-unmatched taken from (e ∷ es) = ground (arith, agents_of-unmatched taken (suc from) es)

agents_of-match_from :
    (entries : List RegistryEntry) (taken : List ℕ) (agents : List HerdrAgent)
    → agents_of (match_from entries taken agents) ≡ agents
unfolding match_from
agents_of-match_from entries taken [] = agents_of-unmatched taken 0 entries
agents_of-match_from entries taken (a ∷ others) =
    elim (Option-cases (match_agent entries taken a)) [
      | inl e ↦ rw (e, match_from) (ap (λ bs. a ∷ bs) (agents_of-match_from entries taken others))
      | inr ((i, r), e) ↦
          rw (e, match_from)
            (ap (λ bs. a ∷ bs)
              (agents_of-match_from entries (KeySet.add ℕ_discrete i taken) others))
    ]

-- The live agents are all in the matches, in the order in which they were listed.
pub match-agents :
    (entries : List RegistryEntry) (agents : List HerdrAgent)
    → agents_of (match_entries_to_agents entries agents) ≡ agents
unfolding match_entries_to_agents
match-agents entries agents = agents_of-match_from entries [] agents

abbrev rest : List ℕ → ℕ → List RegistryEntry → List RegistryEntry
rest taken from es = entries_of (unmatched_from taken from es)

-- Below `from` nothing changes the entries that are free from there on.
rest-add_below :
    (taken : List ℕ) (i from : ℕ) (es : List RegistryEntry)
    → i < from
    → rest (KeySet.add ℕ_discrete i taken) from es ≡ rest taken from es
unfolding unmatched_from
rest-add_below taken i from [] h = refl
rest-add_below taken i from (e ∷ es) h = ground (
  arith,
  KeySet.has-add ℕ_discrete i from taken,
  rest-add_below taken i (suc from) es (omega arith),
)

find_index-le :
    (p : ℕ → RegistryEntry → Bool) (from : ℕ) (es : List RegistryEntry) (i : ℕ) (e : RegistryEntry)
    → find_index p from es ≡ some (i, e)
    → from ≤ i
unfolding find_index
find_index-le p from [] i e h = cc
find_index-le p from (x ∷ es) i e h = ground (arith, find_index-le p (suc from) es i e)

rest-cons_free :
    (taken : List ℕ) (from : ℕ) (x : RegistryEntry) (es : List RegistryEntry)
    → is_free taken from ≡ true
    → rest taken from (x ∷ es) ≡ x ∷ rest taken (suc from) es
unfolding unmatched_from
rest-cons_free taken from x es h = ground arith

rest-cons_taken :
    (taken : List ℕ) (from : ℕ) (x : RegistryEntry) (es : List RegistryEntry)
    → is_free taken from ≡ false
    → rest taken from (x ∷ es) ≡ rest taken (suc from) es
unfolding unmatched_from
rest-cons_taken taken from x es h = ground arith

module _ (p : ℕ → RegistryEntry → Bool) (taken : List ℕ)
    (free : (j : ℕ) (x : RegistryEntry) → p j x ≡ true → is_free taken j ≡ true) where
  found_here :
      (from : ℕ) (x : RegistryEntry) (es : List RegistryEntry)
      → is_free taken from ≡ true
      → Perm (x ∷ rest (KeySet.add ℕ_discrete from taken) from (x ∷ es)) (rest taken from (x ∷ es))
  found_here from x es h =
      let gone : is_free (KeySet.add ℕ_discrete from taken) from ≡ false =
        ground (arith, KeySet.has-add ℕ_discrete from from taken) in
      rw
        (
          rest-cons_taken (KeySet.add ℕ_discrete from taken) from x es gone,
          rest-cons_free taken from x es h,
          rest-add_below taken from (suc from) es (omega arith),
        )
        (Perm.refl _)

  found_later :
      (from i : ℕ) (x e : RegistryEntry) (es : List RegistryEntry)
      → from < i
      → Perm (e ∷ rest (KeySet.add ℕ_discrete i taken) (suc from) es) (rest taken (suc from) es)
      → Perm (e ∷ rest (KeySet.add ℕ_discrete i taken) from (x ∷ es)) (rest taken from (x ∷ es))
  found_later from i x e es lt ih = elim (Bool-cases (is_free taken from)) [
    | inl h ↦
        let same : is_free (KeySet.add ℕ_discrete i taken) from ≡ true =
          ground (arith, KeySet.has-add ℕ_discrete i from taken) in
        rw
          (
            rest-cons_free (KeySet.add ℕ_discrete i taken) from x es same,
            rest-cons_free taken from x es h,
          )
          (Perm.trans (Perm.swap x e _) (Perm.cons x ih))
    | inr h ↦
        let same : is_free (KeySet.add ℕ_discrete i taken) from ≡ false =
          ground (arith, KeySet.has-add ℕ_discrete i from taken) in
        rw
          (
            rest-cons_taken (KeySet.add ℕ_discrete i taken) from x es same,
            rest-cons_taken taken from x es h,
          )
          ih
  ]

  -- A free entry that is found splits off the free entries.
  rest-found :
      (from : ℕ) (es : List RegistryEntry) (i : ℕ) (e : RegistryEntry)
      → find_index p from es ≡ some (i, e)
      → Perm (e ∷ rest (KeySet.add ℕ_discrete i taken) from es) (rest taken from es)
  unfolding find_index
  rest-found from [] i e h = cc
  rest-found from (x ∷ es) i e h = elim (Bool-cases (p from x)) [
    | inl hit ↦
        let same_i : from ≡ i = ground arith in
        let same_e : x ≡ e = ground arith in
        rw (← same_i, ← same_e) (found_here from x es (free from x hit))
    | inr miss ↦
        let later : find_index p (suc from) es ≡ some (i, e) = ground arith in
        found_later from i x e es (find_index-le p (suc from) es i e later)
          (rest-found (suc from) es i e later)
  ]

module _ (entries : List RegistryEntry) where
  matched-Perm :
      (taken : List ℕ) (a : HerdrAgent) (i : ℕ) (e : RegistryEntry)
      → match_agent entries taken a ≡ some (i, e)
      → Perm (e ∷ rest (KeySet.add ℕ_discrete i taken) 0 entries) (rest taken 0 entries)
  unfolding match_agent match_terminal
  matched-Perm taken a i e h =
      elim (Option-cases (match_terminal entries taken (given a.terminal_id))) [
        | inl none_found ↦
            rest-found (by_hint taken a) taken (λ j x hit. ground arith) 0 entries i e
              (ground arith)
        | inr (hit, found) ↦ elim (Option-cases (given a.terminal_id)) [
          | inl no_terminal ↦ absurd (ground arith)
          | inr (t, terminal) ↦
              rest-found (by_terminal taken t) taken (λ j x hit'. ground arith) 0 entries i e
                (ground arith)
        ]
      ]

  match_from-Perm :
      (taken : List ℕ) (agents : List HerdrAgent)
      → Perm (entries_of (match_from entries taken agents)) (rest taken 0 entries)
  unfolding match_from
  match_from-Perm taken [] = Perm.refl _
  match_from-Perm taken (a ∷ others) = elim (Option-cases (match_agent entries taken a)) [
    | inl e ↦ rw (e, match_from) (match_from-Perm taken others)
    | inr ((i, r), e) ↦
        rw (e, match_from)
          (Perm.trans (Perm.cons r (match_from-Perm (KeySet.add ℕ_discrete i taken) others))
            (matched-Perm taken a i r e))
  ]

  rest-nil : (from : ℕ) (es : List RegistryEntry) → rest [] from es ≡ es
  unfolding unmatched_from KeySet.has
  rest-nil from [] = refl
  rest-nil from (e ∷ es) = ap (λ xs. e ∷ xs) (rest-nil (suc from) es)

  -- The matches hold every registry entry once: none is lost and none is counted twice.
  pub match-entries-perm :
      (agents : List HerdrAgent)
      → Perm (entries_of (match_entries_to_agents entries agents)) entries
  unfolding match_entries_to_agents
  match-entries-perm agents =
      subst (Perm (entries_of (match_from entries [] agents))) (rest-nil 0 entries)
        (match_from-Perm [] agents)
