-- ===== src/Notify/Watchers.antt =====
-- The watchers of `createSubagentNotificationManager`: what the fiber of a watcher does at its end,
-- and how a turn of a subagent is reserved, armed and released.
use pi_dotfiles.Prelude.{
  ℕ, suc, Bool, true, false, not, ◌==◌, ◌&&◌, ◌||◌, if◌then◌else◌, Option, none, some, List, [],
  ◌∷◌, ◌++◌, Text, codes, text_discrete, concat,
}
use pi_dotfiles.Prelude.Dict
use pi_dotfiles.Notify.Types.{ArmedNotification, WatcherSlot, ExternalResult, WatchCompletion, Env}
use pi_dotfiles.Notify.Envelope.{watched_delivery_for}
use pi_dotfiles.Notify.State.{
  Manager, abort, batch_has, remove_key_from_current_batch, add_key_to_current_batch,
}
use pi_dotfiles.Notify.Groups.{remove_key_from_group}
use pi_dotfiles.Notify.Report.{
  or_else, truthy, process_completion, process_external_result, queue_pending_external,
  remember_delivered_arms,
}

module _ (env : Env) where
  -- `startWatcher`: the fiber that runs is known by its slot's controller.
  abbrev pub start_watcher : ℕ → ArmedNotification → Manager → Manager
  start_watcher controller n s = record s { running = s.running ++ (controller, n) ∷ [] }

  abbrev pub is_current : ℕ → Option WatcherSlot → Bool
  is_current controller none = false
  is_current controller (some slot) = slot.controller == controller

  unfoldable pub poll_identity : ArmedNotification → WatcherSlot → Text
  poll_identity n slot = concat (
      codes "poll:"
      ∷ or_else n.expected_arm_id (env.show slot.armed_at)
      ∷ codes ":"
      ∷ slot.pane_id
      ∷ codes ":"
      ∷ slot.name
      ∷ [])

  -- The `then` callback of `startWatcher(slot, n)`, where `slot` is the watcher of its key.
  unfoldable pub settle : WatcherSlot → ArmedNotification → WatchCompletion → Manager → Manager
  settle slot n (WatchCompletion.result [] r) s = s
  settle slot n (WatchCompletion.result (c ∷ name) r) s =
      let (s', consumed) = process_external_result env (c ∷ name) r s in
      if not consumed && is_current slot.controller (Dict.get text_discrete slot.key s'.watchers)
      then start_watcher slot.controller n s'
      else s'
  settle slot n (WatchCompletion.notification w) s =
      process_completion env (watched_delivery_for slot.key w (poll_identity n slot))
        (remember_delivered_arms slot.accepted_arm_ids s)

  unfoldable pub watcher_settled :
      Text → ℕ → ArmedNotification → WatchCompletion → Manager → Manager
  watcher_settled key controller n completion s = elim (Dict.get text_discrete key s.watchers) [
    | none ↦ s
    | some slot ↦ if slot.controller == controller then settle slot n completion s else s
  ]

  -- The `catch` callback of `startWatcher`.
  unfoldable pub watcher_failed : Text → ℕ → Manager → Manager
  watcher_failed key controller s =
      if is_current controller (Dict.get text_discrete key s.watchers)
      then remove_key_from_group env key (
          remove_key_from_current_batch key
            (record s { watchers = Dict.delete text_discrete key s.watchers }))
      else s

  unfoldable pub begin_batch_member : Text → Manager → Manager
  begin_batch_member name s = add_key_to_current_batch name s

  unfoldable pub release_batch_member : Text → Manager → Manager
  release_batch_member name s =
      if Dict.has text_discrete name s.watchers
      then s
      else remove_key_from_group env name (
          remove_key_from_current_batch name
            (record s { pending_external = Dict.delete text_discrete name s.pending_external }))

  unfoldable pub queue_all : Text → List ExternalResult → Manager → Manager
  queue_all key [] s = s
  queue_all key (r ∷ rs) s = queue_all key rs (queue_pending_external env key r s)

  -- The loop at the end of `arm`.
  unfoldable pub replay_pending : Text → List ExternalResult → Manager → Manager
  replay_pending name [] s = s
  replay_pending name (r ∷ rs) s =
      let (s', consumed) = process_external_result env name r s in
      let rest = replay_pending name rs s' in if consumed then queue_all name rs s' else rest

  -- `arm` up to the new slot: an earlier watcher of the name goes.
  unfoldable pub replace_watcher : Text → Manager → Manager
  replace_watcher key s = elim (Dict.get text_discrete key s.watchers) [
    | none ↦ s
    | some old ↦
        let s' = abort old.controller s in
        remove_key_from_group env key (
          remove_key_from_current_batch key
            (record s' { watchers = Dict.delete text_discrete key s'.watchers }))
  ]

  unfoldable pub new_slot : ArmedNotification → ℕ → ℕ → WatcherSlot
  new_slot n now controller = record {
    key = n.name;
    name = n.name;
    pane_id = n.pane_id;
    summary_source = n.summary_source;
    armed_at = or_else n.accept_results_since now;
    accepted_arm_ids = elim n.expected_arm_id [
      | none ↦ []
      | some arm ↦ if truthy (some arm) then arm ∷ [] else []
    ];
    controller = controller;
  }

  unfoldable pub install_watcher : ArmedNotification → ℕ → Manager → Manager
  install_watcher n now s = record s {
    watchers = Dict.set text_discrete n.name (new_slot n now s.next_controller) s.watchers;
    next_controller = suc s.next_controller;
  }

  abbrev pub is_reserved : Text → Manager → Bool
  is_reserved key s =
      batch_has key s.current_arm_batch
      || (Dict.has text_discrete key s.key_to_group && not (Dict.has text_discrete key s.watchers))

  abbrev pub batch_unless : Bool → Text → Manager → Manager
  batch_unless true key s = s
  batch_unless false key s = add_key_to_current_batch key s

  unfoldable pub arm : ArmedNotification → ℕ → Manager → Manager
  arm n now s =
      let replaced = replace_watcher n.name s in
      let batched = batch_unless (is_reserved n.name s) n.name (install_watcher n now replaced) in
      let armed = record n { accept_results_since = some (or_else n.accept_results_since now) } in
      let started = start_watcher replaced.next_controller armed batched in
      replay_pending n.name (or_else (Dict.get text_discrete n.name started.pending_external) [])
        (record started {
          pending_external = Dict.delete text_discrete n.name started.pending_external;
        })
