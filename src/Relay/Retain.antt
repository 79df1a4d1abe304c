-- ===== src/Relay/Retain.antt =====
-- The entries that web-herdr-relay/normalization.ts retains of a branch.
use pi_dotfiles.Prelude.{
  ℕ, ◌≤◌, ◌<◌, ◌⊎◌, ◌≡◌, refl, Bool, not, ◌&&◌, List, [], ◌∷◌, length, keep, arith, inl, inr,
  Bool-cases, length-keep-le,
}
use pi_dotfiles.Prelude.Json.{Value}
use pi_dotfiles.Relay.Branch.{retain_renderable_entries, is_candidate, is_summary_entry}

-- A summary that the browser can show, and any other entry.
abbrev pub is_summary : Value → Bool
is_summary v = is_candidate v && is_summary_entry v

abbrev pub is_other : Value → Bool
is_other v = not (is_summary_entry v)

retained_summaries :
    (vs : List Value) → keep is_summary (retain_renderable_entries vs) ≡ keep is_summary vs
unfolding retain_renderable_entries
retained_summaries [] = refl
retained_summaries (v ∷ vs) = let ih = retained_summaries vs in ground arith

retained_others : (vs : List Value) → length (keep is_other (retain_renderable_entries vs)) ≤ 240
unfolding retain_renderable_entries
retained_others [] = omega arith
retained_others (v ∷ vs) =
    let ih = retained_others vs in
    let le = length-keep-le is_other (retain_renderable_entries vs) in ground arith

length-retained-le :
    (vs : List Value) → length (retain_renderable_entries vs) ≤ length (keep is_candidate vs)
unfolding retain_renderable_entries
length-retained-le [] = omega arith
length-retained-le (v ∷ vs) = let ih = length-retained-le vs in ground arith

retained_all :
    (vs : List Value)
    → length (keep is_candidate vs) ≤ 240
    → retain_renderable_entries vs ≡ keep is_candidate vs
unfolding retain_renderable_entries
retained_all [] le = refl
retained_all (v ∷ vs) le =
    let ih = retained_all vs in
    let shorter = length-retained-le vs in
    elim (Bool-cases (is_candidate v)) [ inl e ↦ ground (arith, e) | inr e ↦ ground (arith, e) ]

few_or_many : (n : ℕ) → (n ≤ 240) ⊎ (240 < n)
few_or_many n = omega arith

-- Every compaction and every branch summary that can be shown is retained, in the order of the
-- branch; of the other entries at most 240 are; and a branch of at most 240 entries that can be
-- shown is retained whole.
pub retain_renderable_entries-keeps :
    (vs : List Value)
    → (keep is_summary (retain_renderable_entries vs) ≡ keep is_summary vs)
      × (length (keep is_other (retain_renderable_entries vs)) ≤ 240)
      × ((240 < length (keep is_candidate vs))
          ⊎ (retain_renderable_entries vs ≡ keep is_candidate vs))
retain_renderable_entries-keeps vs = (
  retained_summaries vs,
  retained_others vs,
  elim (few_or_many (length (keep is_candidate vs))) [
    | inl le ↦ inr (retained_all vs le)
    | inr lt ↦ inl lt
  ],
)
