-- ===== src/Statusline/State.antt =====
-- statusline/core/state.ts: the store of the features' state slices.
use pi_dotfiles.Prelude.{
  ℕ, suc, ◌≤◌, ◌≡◌, ◌≢◌, refl, sym, ap, ◌∙◌, Bool, true, false, if◌then◌else◌, none, some, List, [],
  ◌∷◌, Text, text_discrete, arith, Bool-cases, inl, inr, ◌⊎◌,
}
use pi_dotfiles.Prelude.Dict

pub record StateKey (V : Type 0) : Type 0 where
  pub id : Text
  pub initial : V
  pub equals : V → V → Bool

-- The store: its snapshot, and how often it called `onChange`. The values of all slices have one
-- type.
pub record Store (V : Type 0) : Type 0 where
  pub snapshot : List (Text × V)
  pub notified : ℕ

module _ {V : Type 0} where
  unfoldable pub get_state : List (Text × V) → StateKey V → V
  get_state snapshot key = elim (Dict.get text_discrete key.id snapshot) [
    | none ↦ key.initial
    | some v ↦ v
  ]

  unfoldable pub update : StateKey V → (V → V) → Store V → Store V × Bool
  update key derive s =
      let previous = get_state s.snapshot key in
      let next = derive previous in
      if key.equals previous next then (s, false) else (
        record s {
          snapshot = Dict.set text_discrete key.id next s.snapshot;
          notified = suc s.notified;
        },
        true,
      )

  -- `set`, for a value that is there.
  unfoldable pub set_state : StateKey V → V → Store V → Store V × Bool
  set_state key value s = update key (λ _. value) s

  -- A sequence of updates.
  unfoldable pub run_updates : List (StateKey V × (V → V)) → Store V → Store V
  run_updates [] s = s
  run_updates ((key, derive) ∷ us) s = run_updates us (update key derive s).0

  update_cases :
      (key : StateKey V) (derive : V → V) (s : Store V)
      → ((update key derive s).0 ≡ s) ⊎ ((update key derive s).0.notified ≡ suc s.notified)
  unfolding update
  update_cases key derive s = ground arith

  notified-run_updates-le :
      (us : List (StateKey V × (V → V))) (s : Store V) → s.notified ≤ (run_updates us s).notified
  unfolding run_updates
  notified-run_updates-le [] s = omega arith
  notified-run_updates-le ((key, derive) ∷ us) s =
      let later = notified-run_updates-le us (update key derive s).0 in
      elim (update_cases key derive s) [
        | inl e ↦ let same = ap (λ x. x.notified) e in omega (arith, later, same)
        | inr e ↦ omega (arith, later, e)
      ]

  -- Updates that did not call `onChange` left the store as it was.
  quiet_run :
      (us : List (StateKey V × (V → V))) (s : Store V)
      → (run_updates us s).notified ≡ s.notified
      → run_updates us s ≡ s
  unfolding run_updates
  quiet_run [] s h = refl
  quiet_run ((key, derive) ∷ us) s h = elim (update_cases key derive s) [
    | inl e ↦ quiet_run us (update key derive s).0 (h ∙ sym (ap (λ x. x.notified) e)) ∙ e
    | inr e ↦
        let later = notified-run_updates-le us (update key derive s).0 in
        absurd (omega (arith, later, e, h))
  ]

  get_state-set :
      (key other : StateKey V) (v : V) (snapshot : List (Text × V))
      → (get_state (Dict.set text_discrete key.id v snapshot) key ≡ v)
        × (key.id ≢ other.id
            → get_state (Dict.set text_discrete key.id v snapshot) other ≡ get_state snapshot other)
  unfolding get_state
  get_state-set key other v snapshot = (
    ground (arith, Dict.get-set_self text_discrete key.id v snapshot),
    λ apart. ground (arith, Dict.get-set text_discrete key.id other.id v snapshot, apart),
  )

  -- The snapshot after an update.
  update-same :
      (key : StateKey V) (derive : V → V) (s : Store V)
      → key.equals (get_state s.snapshot key) (derive (get_state s.snapshot key)) ≡ true
      → (update key derive s).0 ≡ s
  unfolding update
  update-same key derive s e = ground (arith, e)

  update-new :
      (key : StateKey V) (derive : V → V) (s : Store V)
      → key.equals (get_state s.snapshot key) (derive (get_state s.snapshot key)) ≡ false
      → (update key derive s).0.snapshot
        ≡ Dict.set text_discrete key.id (derive (get_state s.snapshot key)) s.snapshot
  unfolding update
  update-new key derive s e = ground (arith, e)

  -- If the equality of a key is sound, its slice reads after an update what was derived from its
  -- value before, and the slices of all keys with another identifier read as before.
  pub update_reads :
      (key other : StateKey V) (derive : V → V) (s : Store V)
      → ((a b : V) → key.equals a b ≡ true → a ≡ b)
      → key.id ≢ other.id
      → (get_state (update key derive s).0.snapshot key ≡ derive (get_state s.snapshot key))
        × (get_state (update key derive s).0.snapshot other ≡ get_state s.snapshot other)
  update_reads key other derive s sound apart =
      let previous = get_state s.snapshot key in
      let next = derive previous in
      elim (Bool-cases (key.equals previous next)) [
        | inl e ↦
            let same = ap (λ x. x.snapshot) (update-same key derive s e) in
            (
              ap (λ m. get_state m key) same ∙ sound previous next e,
              ap (λ m. get_state m other) same,
            )
        | inr e ↦
            let new = update-new key derive s e in
            let (here, there) = get_state-set key other next s.snapshot in
            (ap (λ m. get_state m key) new ∙ here, ap (λ m. get_state m other) new ∙ there apart)
      ]
