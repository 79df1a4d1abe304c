-- ===== src/Coordinator/Release.antt =====
-- The batch reservation of a spawn in herdr-subagent/completion.ts and notifications.ts.
use pi_dotfiles.Prelude.{
  ℕ, ◌≡◌, ◌⊎◌, inl, inr, refl, ap, ◌∙◌, arith, Bool, true, false, if◌then◌else◌, none, List, [],
  ◌∷◌, Text, text_discrete, ℕ_discrete, Option-cases,
}
use pi_dotfiles.Prelude.Dict
use pi_dotfiles.Prelude.KeySet
use pi_dotfiles.Notify.Types.{Env, CompletionGroup}
use pi_dotfiles.Notify.State.{Manager, batch_has, remove_key_from_current_batch}
use pi_dotfiles.Notify.Groups.{
  remove_key_from_group, shrink_group, cleanup_group, maybe_deliver_completed_group, put_group,
}
use pi_dotfiles.Notify.Watchers.{release_batch_member}
use pi_dotfiles.Notify.Memory.{memory-remove_from_group, memory-remove_from_batch}

-- A name that is watched, or has no place in a batch or a group and no result that waits for it.
pub IsReleased : Text → Manager → Type 0
IsReleased name s =
    (Dict.has text_discrete name s.watchers ≡ true)
    ⊎ ((batch_has name s.current_arm_batch ≡ false)
        × (Dict.get text_discrete name s.key_to_group ≡ none)
        × (Dict.get text_discrete name s.pending_external ≡ none))

remove_batch-gone :
    (name : Text) (s : Manager)
    → batch_has name (remove_key_from_current_batch name s).current_arm_batch ≡ false
unfolding remove_key_from_current_batch
remove_batch-gone name s = elim (Option-cases s.current_arm_batch) [
  | inl e ↦ ground (arith, e)
  | inr (b, e) ↦ ground (arith, e, KeySet.has-delete text_discrete name name b.keys)
]

remove_batch-groups :
    (name : Text) (s : Manager)
    → (remove_key_from_current_batch name s).key_to_group ≡ s.key_to_group
unfolding remove_key_from_current_batch
remove_batch-groups name s = ground arith

delete_all-none :
    (name : Text) (ks : List Text) (m : List (Text × ℕ))
    → Dict.get text_discrete name m ≡ none
    → Dict.get text_discrete name (Dict.delete_all text_discrete ks m) ≡ none
unfolding Dict.delete_all
delete_all-none name [] m e = e
delete_all-none name (k ∷ ks) m e =
    delete_all-none name ks (Dict.delete text_discrete k m)
      (ground (arith, Dict.get-delete text_discrete k name m))

cleanup-gone :
    (name : Text) (id : ℕ) (s : Manager)
    → Dict.get text_discrete name s.key_to_group ≡ none
    → Dict.get text_discrete name (cleanup_group id s).key_to_group ≡ none
unfolding cleanup_group
cleanup-gone name id s e = elim (Option-cases (Dict.get ℕ_discrete id s.groups)) [
  | inl h ↦ ground (arith, h)
  | inr (g, h) ↦ ground (arith, h, delete_all-none name g.member_keys s.key_to_group e)
]

either :
    {A : Type 0} (b : Bool) (P : A → Type 0) (x y : A)
    → (b ≡ true → P x)
    → P y
    → P (if b then x else y)
either true P x y left right = left refl
either false P x y left right = right

module _ (env : Env) where
  maybe_deliver-gone :
      (name : Text) (g : CompletionGroup) (s : Manager)
      → Dict.get text_discrete name s.key_to_group ≡ none
      → Dict.get text_discrete name (maybe_deliver_completed_group env g s).key_to_group ≡ none
  unfolding maybe_deliver_completed_group
  maybe_deliver-gone name g s e = ground (arith, cleanup-gone name g.id s e)

  shrink-gone :
      (name : Text) (g : CompletionGroup) (s : Manager)
      → Dict.get text_discrete name s.key_to_group ≡ none
      → Dict.get text_discrete name (shrink_group env g s).key_to_group ≡ none
  unfolding shrink_group
  shrink-gone name g s e = ground (arith, cleanup-gone name g.id s e, maybe_deliver-gone name g s e)

  remove_group-gone :
      (name : Text) (s : Manager)
      → Dict.get text_discrete name (remove_key_from_group env name s).key_to_group ≡ none
  unfolding remove_key_from_group
  remove_group-gone name s =
      let s' = record s { key_to_group = Dict.delete text_discrete name s.key_to_group } in
      let gone = Dict.get-delete_self text_discrete name s.key_to_group in
      let shrunk = λ (g : CompletionGroup).
        let g' = record g {
          member_keys = KeySet.delete text_discrete name g.member_keys;
          completed = Dict.delete text_discrete name g.completed;
        } in
        shrink-gone name g' (put_group g' s') gone in
      elim (Option-cases (Dict.get text_discrete name s.key_to_group)) [
        | inl h ↦ ground (arith, h)
        | inr (id, h) ↦ elim (Option-cases (Dict.get ℕ_discrete id s.groups)) [
          | inl none_there ↦ ground (arith, h, none_there, gone)
          | inr (g, there) ↦ ground (arith, h, there, shrunk g)
        ]
      ]

  remove_group-batch :
      (name : Text) (s : Manager)
      → (remove_key_from_group env name s).current_arm_batch ≡ s.current_arm_batch
  unfolding remove_key_from_group
  remove_group-batch name s = ground arith

  pub release-IsReleased :
      (name : Text) (s : Manager) → IsReleased name (release_batch_member env name s)
  unfolding release_batch_member IsReleased
  release-IsReleased name s =
      let unqueued = record s {
        pending_external = Dict.delete text_discrete name s.pending_external;
      } in
      let removed = remove_key_from_current_batch name unqueued in
      let left = remove_key_from_group env name removed in
      let batch : batch_has name left.current_arm_batch ≡ false =
        ap (batch_has name) (remove_group-batch name removed) ∙ remove_batch-gone name unqueued in
      let pending : Dict.get text_discrete name left.pending_external ≡ none =
        ap (λ m. Dict.get text_discrete name m.pending)
          (memory-remove_from_group env name removed ∙ memory-remove_from_batch name unqueued)
        ∙ Dict.get-delete_self text_discrete name s.pending_external in
      let group = remove_group-gone name removed in
      either (Dict.has text_discrete name s.watchers) (IsReleased name) s left (λ h. inl h)
        (inr (batch, group, pending))
