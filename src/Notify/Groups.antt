-- ===== src/Notify/Groups.antt =====
-- The operations of `createSubagentNotificationManager` on completion groups. A group object is
-- shared through the map of groups, which `put_group` writes to.
use pi_dotfiles.Prelude.{
  ℕ, Bool, true, false, not, leb, ltb, if◌then◌else◌, Option, none, some, List, [], ◌∷◌, map, Text,
  text_discrete, ℕ_discrete, length, keep, is_empty,
}
use pi_dotfiles.Prelude.Dict
use pi_dotfiles.Prelude.KeySet
use pi_dotfiles.Notify.Types.{NotificationDelivery, CompletionGroup, Env}
use pi_dotfiles.Notify.Envelope.{individual_message, grouped_message}
use pi_dotfiles.Notify.State.{Manager, Callback, send, clear_if_set, set_timeout}

unfoldable pub records_of :
    List Text → List (Text × NotificationDelivery) → List NotificationDelivery
records_of [] completed = []
records_of (k ∷ ks) completed = elim (Dict.get text_discrete k completed) [
  | none ↦ records_of ks completed
  | some d ↦ d ∷ records_of ks completed
]

unfoldable pub delivery_records_for : CompletionGroup → List NotificationDelivery
unfolding records_of
delivery_records_for g = records_of g.member_keys g.completed

abbrev pub put_group : CompletionGroup → Manager → Manager
put_group g s = record s { groups = Dict.set ℕ_discrete g.id g s.groups }

drop_group : CompletionGroup → Manager → Manager
drop_group g s = record (clear_if_set g.timeout s) {
  key_to_group = Dict.delete_all text_discrete g.member_keys s.key_to_group;
  groups = Dict.delete ℕ_discrete g.id s.groups;
}

unfoldable pub cleanup_group : ℕ → Manager → Manager
unfolding drop_group
cleanup_group id s = elim (Dict.get ℕ_discrete id s.groups) [ none ↦ s | some g ↦ drop_group g s ]

unfoldable pub start_group_timeout : CompletionGroup → Manager → Manager
start_group_timeout g s = elim g.timeout [
  | some h ↦ s
  | none ↦
      let delay =
        if g.is_straggler then s.options.straggler_join_timeout else s.options.group_join_timeout in
      put_group (record g { timeout = some s.next_handle })
        (set_timeout (Callback.group_join g.id) delay s)
]

abbrev pub is_completed : CompletionGroup → Text → Bool
is_completed g k = Dict.has text_discrete k g.completed

-- The members that have not completed.
unfoldable pub remaining_keys : CompletionGroup → List Text
remaining_keys g = keep (λ k. not (is_completed g k)) g.member_keys

module _ (env : Env) where
  unfoldable pub deliver_group : CompletionGroup → Bool → ℕ → Manager → Manager
  unfolding cleanup_group delivery_records_for
  deliver_group g partial pending s =
      let deliveries = delivery_records_for g in
      if is_empty deliveries
      then s
      else send (grouped_message env deliveries partial pending) (cleanup_group g.id s)

  -- The body of `onGroupTimeout` for a group with a completed member.
  group_timeout_passed : CompletionGroup → Manager → Manager
  unfolding delivery_records_for cleanup_group remaining_keys
  group_timeout_passed g s =
      let remaining = remaining_keys g in
      let deliveries = delivery_records_for g in
      let g' = record g {
        member_keys = remaining;
        completed = [];
        timeout = none;
        is_straggler = true;
      } in
      let s' = put_group g' (
        send (grouped_message env deliveries true (length remaining)) (record s {
          key_to_group = Dict.delete_all text_discrete (map (λ d. d.key) deliveries) s.key_to_group;
        })) in
      if is_empty remaining then cleanup_group g.id s' else s'

  unfoldable pub on_group_timeout : ℕ → Manager → Manager
  unfolding group_timeout_passed
  on_group_timeout id s = elim (Dict.get ℕ_discrete id s.groups) [
    | none ↦ s
    | some g ↦ if is_empty g.completed then s else group_timeout_passed g s
  ]

  unfoldable pub maybe_deliver_completed_group : CompletionGroup → Manager → Manager
  unfolding deliver_group start_group_timeout
  maybe_deliver_completed_group g s =
      if leb (length g.member_keys) (length g.completed)
      then deliver_group g false 0 s
      else if ltb 0 (length g.completed)
      then start_group_timeout g s
      else s

  -- `remainingKey ? group.completed.get(remainingKey) : undefined`
  abbrev remaining_delivery : CompletionGroup → Option NotificationDelivery
  remaining_delivery g = elim g.member_keys [
    | [] ↦ none
    | k ∷ ks ↦ if is_empty k then none else Dict.get text_discrete k g.completed
  ]

  abbrev send_if_some : Option NotificationDelivery → Manager → Manager
  send_if_some none s = s
  send_if_some (some d) s = send (individual_message d) s

  -- The body of `removeKeyFromGroup` for a group that is there, without the key already.
  unfoldable pub shrink_group : CompletionGroup → Manager → Manager
  unfolding cleanup_group maybe_deliver_completed_group
  shrink_group g s = elim g.member_keys [
    | [] ↦ cleanup_group g.id s
    | k ∷ rest ↦
        if is_empty rest
        then send_if_some (remaining_delivery g) (cleanup_group g.id s)
        else maybe_deliver_completed_group g s
  ]

  remove_from : Text → ℕ → Manager → Manager
  unfolding shrink_group
  remove_from key id s =
      let s' = record s { key_to_group = Dict.delete text_discrete key s.key_to_group } in
      elim (Dict.get ℕ_discrete id s.groups) [
        | none ↦ s'
        | some g ↦
            let g' = record g {
              member_keys = KeySet.delete text_discrete key g.member_keys;
              completed = Dict.delete text_discrete key g.completed;
            } in
            shrink_group g' (put_group g' s')
      ]

  unfoldable pub remove_key_from_group : Text → Manager → Manager
  unfolding remove_from
  remove_key_from_group key s = elim (Dict.get text_discrete key s.key_to_group) [
    | none ↦ s
    | some id ↦ remove_from key id s
  ]
