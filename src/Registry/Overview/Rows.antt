-- ===== src/Registry/Overview/Rows.antt =====
-- The rows and the counts of `buildOverview` of herdr-subagent/overview.ts.
use mathlib.Core.List.{Perm}
use mathlib.Core.List.Perm
use pi_dotfiles.Prelude.{
  ℕ, ◌+◌, ◌≡◌, refl, sym, subst, Option, List, [], ◌∷◌, Text, arith, map, inl, inr, Option-cases,
  pick,
}
use pi_dotfiles.Registry.Types.{RegistryEntry, HerdrAgent}
use pi_dotfiles.Registry.Match.{MatchedRegistryAgent, match_entries_to_agents}
use pi_dotfiles.Registry.Match.Laws.{entries_of, match-entries-perm}
use pi_dotfiles.Registry.Overview.{
  RowKind, OverviewRow, Counts, empty_counts, count_in, count_of, kind_for_match, overview_rows,
  overview_counts, row_for, build_overview,
}

unfoldable pub RowKind-discrete : Discrete RowKind
RowKind-discrete = hlevel

-- The number of rows of a kind.
abbrev pub rows_of : RowKind → List OverviewRow → ℕ
rows_of k [] = 0
rows_of k (r ∷ rs) = pick (RowKind-discrete r.kind k) 1 0 + rows_of k rs

count_of-count_in :
    (k j : RowKind) (c : Counts)
    → count_of (count_in k c) j ≡ pick (RowKind-discrete k j) 1 0 + count_of c j
count_of-count_in k j c = ground arith

count_of-empty : (k : RowKind) → count_of empty_counts k ≡ 0
count_of-empty k = ground arith

abbrev pub names_of : List OverviewRow → List Text
names_of = map (λ r. r.name)

module _ (date_parse : Text → Option ℕ) where
  counts-rows :
      (ms : List MatchedRegistryAgent) (c : Counts) (k : RowKind) (now : ℕ)
      → count_of (overview_counts date_parse ms c) k
        ≡ count_of c k + rows_of k (overview_rows date_parse ms now)
  unfolding overview_counts overview_rows row_for
  counts-rows [] c k now = omega arith
  counts-rows (m ∷ ms) c k now = elim (Option-cases m.entry) [
    | inl e ↦ rw e (counts-rows ms c k now)
    | inr (r, e) ↦ rw e (
        omega (
          arith,
          counts-rows ms (count_in (kind_for_match r m.agent) c) k now,
          count_of-count_in (kind_for_match r m.agent) k c,
        ))
  ]

  -- Each count of an overview is the number of its rows of that kind.
  pub overview_counts_rows :
      (entries : List RegistryEntry) (agents : List HerdrAgent) (now : ℕ) (k : RowKind)
      → let o = build_overview date_parse entries agents now in
        count_of o.counts k ≡ rows_of k o.rows
  unfolding build_overview
  overview_counts_rows entries agents now k = omega (
    arith,
    counts-rows (match_entries_to_agents entries agents) empty_counts k now,
    count_of-empty k,
  )

  names_of-rows :
      (ms : List MatchedRegistryAgent) (now : ℕ)
      → names_of (overview_rows date_parse ms now) ≡ map (λ e. e.name) (entries_of ms)
  unfolding overview_rows row_for
  names_of-rows [] now = refl
  names_of-rows (m ∷ ms) now = ground (arith, names_of-rows ms now)

  -- An overview has one row for each registered subagent, whatever agents are live.
  overview_names :
      (entries : List RegistryEntry) (agents : List HerdrAgent) (now : ℕ)
      → Perm
          (names_of (build_overview date_parse entries agents now).rows)
          (map (λ e. e.name) entries)
  unfolding build_overview
  overview_names entries agents now =
      subst (λ l. Perm l (map (λ e. e.name) entries))
        (sym (names_of-rows (match_entries_to_agents entries agents) now))
        (Perm.map (λ e. e.name) (match-entries-perm entries agents))
