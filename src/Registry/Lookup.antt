-- ===== src/Registry/Lookup.antt =====
-- `findEntry` and `findEntryForPane` of herdr-subagent/store.ts, `resolutionCandidates` of
-- herdr-subagent/pane.ts, and `isSubagentName` of herdr-subagent/subagent-name.ts.
use pi_dotfiles.Prelude.{
  ℕ, ◌≤◌, ◌≡◌, ◌≢◌, refl, Bool, true, false, leb, ◌==◌, ◌&&◌, ◌||◌, if◌then◌else◌, Option, none,
  some, List, [], ◌∷◌, Text, text_discrete, find, some_of, All, arith, length, codes, Option-cases,
  inl, inr, ◌⊎◌, starts_with,
}
use pi_dotfiles.Prelude.KeySet
use pi_dotfiles.Registry.Types.{RegistryEntry, HerdrPane, is_text, given, agrees}

abbrev pub or_find {ℓ} : {A : Type ℓ} → Option A → Option A → Option A
or_find none other = other
or_find (some a) other = some a

unfoldable pub find_entry : List RegistryEntry → Text → Option RegistryEntry
find_entry entries target = or_find (find (λ e. is_text (some e.name) target) entries) (
    or_find (find (λ e. is_text e.terminal_id target) entries) (
      find (λ e. is_text e.target target || is_text e.pane_id target || is_text e.tab_id target)
        entries))

by_pane_id : Option Text → List RegistryEntry → Option RegistryEntry
by_pane_id none entries = none
by_pane_id (some id) entries = find (λ e. is_text e.pane_id id) entries

unfoldable pub find_entry_for_pane : List RegistryEntry → HerdrPane → Option RegistryEntry
unfolding by_pane_id
find_entry_for_pane entries pane =
    or_find (by_pane_id (given pane.pane_id) entries) (
      find (λ e. agrees pane.terminal_id e.terminal_id || agrees pane.terminal_id e.target) entries)

present_from : List Text → List (Option Text) → List Text
present_from seen [] = []
present_from seen (c ∷ cs) = elim (given c) [
  | none ↦ present_from seen cs
  | some t ↦
      let fresh = t ∷ present_from (KeySet.add text_discrete t seen) cs in
      let old = present_from seen cs in if KeySet.has text_discrete t seen then old else fresh
]

unfoldable pub present_unique : List (Option Text) → List Text
unfolding present_from
present_unique candidates = present_from [] candidates

unfoldable pub resolution_candidates : Text → Option RegistryEntry → List Text
unfolding present_unique
resolution_candidates target none = target ∷ []
resolution_candidates target (some e) = elim (given e.terminal_id) [
  | some t ↦ present_unique (some t ∷ some e.label ∷ some target ∷ [])
  | none ↦ present_unique (e.target ∷ e.pane_id ∷ some e.label ∷ some target ∷ [])
]

-- The pattern of a subagent's name: `/^[A-Za-z0-9][A-Za-z0-9._-]{0,63}$/`.
abbrev is_alphanumeric : ℕ → Bool
is_alphanumeric c =
    (leb b'A' c && leb c b'Z') || (leb b'a' c && leb c b'z') || (leb b'0' c && leb c b'9')

abbrev is_name_unit : ℕ → Bool
is_name_unit c = is_alphanumeric c || (c == b'.') || (c == b'_') || (c == b'-')

all_name_units : Text → Bool
all_name_units [] = true
all_name_units (c ∷ cs) = is_name_unit c && all_name_units cs

unfoldable pub is_subagent_name : Text → Bool
unfolding all_name_units
is_subagent_name [] = false
is_subagent_name (c ∷ cs) = is_alphanumeric c && all_name_units cs && leb (length cs) 63

-- A unit that is neither a path separator nor NUL.
abbrev pub IsSafeUnit : ℕ → Type 0
IsSafeUnit c = (c ≢ b'/') × (c ≢ 92) × (c ≢ 0)

all_name_units-safe : (cs : Text) → all_name_units cs ≡ true → All IsSafeUnit cs
unfolding all_name_units
all_name_units-safe [] h = tt
all_name_units-safe (c ∷ cs) h = ground (arith, all_name_units-safe cs)

-- An accepted name has 1 to 64 units, holds no path separator and no NUL, and does not start with a
-- dot.
pub is_subagent_name_safe :
    (name : Text)
    → is_subagent_name name ≡ true
    → All IsSafeUnit name
      × (1 ≤ length name)
      × (length name ≤ 64)
      × (starts_with (codes ".") name ≡ false)
unfolding is_subagent_name
is_subagent_name_safe [] h = cc
is_subagent_name_safe (c ∷ cs) h = ground (arith, all_name_units-safe cs)

-- No two candidates of a resolution are equal, and none is empty.
abbrev Distinct : List Text → List Text → Type 0
Distinct seen [] = Unit {0}
Distinct seen (t ∷ ts) =
    (t ≢ [])
    × (KeySet.has text_discrete t seen ≡ false)
    × Distinct (KeySet.add text_discrete t seen) ts

present_from-Distinct :
    (seen : List Text) (cs : List (Option Text)) → Distinct seen (present_from seen cs)
unfolding present_from
present_from-Distinct seen [] = tt
present_from-Distinct seen (none ∷ cs) = present_from-Distinct seen cs
present_from-Distinct seen (some [] ∷ cs) = present_from-Distinct seen cs
present_from-Distinct seen (some (c ∷ t) ∷ cs) = ground (
  arith,
  present_from-Distinct seen cs,
  present_from-Distinct (KeySet.add text_discrete (c ∷ t) seen) cs,
)

-- The candidates are not empty, and no candidate comes twice.
present_unique-Distinct : (cs : List (Option Text)) → Distinct [] (present_unique cs)
unfolding present_unique
present_unique-Distinct cs = present_from-Distinct [] cs

module _ {ℓ} {A : Type ℓ} (p : A → Bool) where
  find_sound : (xs : List A) (a : A) → find p xs ≡ some a → p a ≡ true
  find_sound [] a h = cc
  find_sound (x ∷ xs) a h = ground (arith, find_sound xs a)

  some_of-find : (xs : List A) (a : A) → find p xs ≡ some a → some_of p xs ≡ true
  some_of-find [] a h = cc
  some_of-find (x ∷ xs) a h = ground (arith, some_of-find xs a)

  some_of-find-none : (xs : List A) → find p xs ≡ none → some_of p xs ≡ false
  some_of-find-none [] h = refl
  some_of-find-none (x ∷ xs) h = ground (arith, some_of-find-none xs)

is_text_sound : (o : Option Text) (t : Text) → is_text o t ≡ true → o ≡ some t
is_text_sound none t h = cc
is_text_sound (some u) t h = ground arith

module _ (entries : List RegistryEntry) (target : Text) where
  abbrev pub is_named : Bool
  is_named = some_of (λ x. is_text (some x.name) target) entries

  abbrev pub is_terminal : Bool
  is_terminal = some_of (λ x. is_text x.terminal_id target) entries

  abbrev hinted : Option RegistryEntry
  hinted =
      find (λ e. is_text e.target target || is_text e.pane_id target || is_text e.tab_id target)
        entries

  hinted_sound :
      (e : RegistryEntry)
      → hinted ≡ some e
      → (e.target ≡ some target) ⊎ (e.pane_id ≡ some target) ⊎ (e.tab_id ≡ some target)
  hinted_sound e h =
      let hit = find_sound _ entries e h in
      ground (
        arith,
        is_text_sound e.target target,
        is_text_sound e.pane_id target,
        is_text_sound e.tab_id target,
      )

  -- The entry found bears the target as its name if any entry does, else as its terminal if any entry
  -- does, and else as its target, pane or tab.
  pub find_entry_priority :
      (e : RegistryEntry)
      → find_entry entries target ≡ some e
      → ((is_named ≡ true) × (e.name ≡ target))
        ⊎ ((is_named ≡ false) × (is_terminal ≡ true) × (e.terminal_id ≡ some target))
        ⊎ ((is_named ≡ false)
            × (is_terminal ≡ false)
            × ((e.target ≡ some target) ⊎ (e.pane_id ≡ some target) ⊎ (e.tab_id ≡ some target)))
  unfolding find_entry
  find_entry_priority e h =
      let names = λ (x : RegistryEntry). is_text (some x.name) target in
      let terminals = λ (x : RegistryEntry). is_text x.terminal_id target in
      elim (Option-cases (find names entries)) [
        | inr (a, e1) ↦ inl (
          some_of-find names entries a e1,
          ground (arith, find_sound names entries a e1, is_text_sound (some a.name) target),
        )
        | inl e1 ↦ elim (Option-cases (find terminals entries)) [
          | inr (a, e2) ↦ inr (
              inl (
                some_of-find-none names entries e1,
                some_of-find terminals entries a e2,
                ground
                    (arith, find_sound terminals entries a e2, is_text_sound a.terminal_id target),
              ))
          | inl e2 ↦ inr (
              inr (
                some_of-find-none names entries e1,
                some_of-find-none terminals entries e2,
                hinted_sound e (ground arith),
              ))
        ]
      ]
