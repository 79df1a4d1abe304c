-- ===== src/Coordinator/Execute.antt =====
-- How herdr-subagent/completion.ts reconciles an action with the watchers, and `execute`.
use pi_dotfiles.Prelude.{
  ℕ, Bool, true, false, not, ◌||◌, if◌then◌else◌, Option, none, some, [], ◌∷◌, Text, codes,
  text_discrete, is_empty, join,
}
use pi_dotfiles.Prelude.KeySet
use pi_dotfiles.Notify.Types.{CompletionSource, Env}
use pi_dotfiles.Notify.Report.{or_else}
use pi_dotfiles.Notify.Watchers.{release_batch_member}
use pi_dotfiles.Notify.Inspection.{acknowledge}
use pi_dotfiles.Notify.Manager.{has_delivered_arm, cancel}
use pi_dotfiles.Registry.Types.{RegistryEntry}
use pi_dotfiles.Coordinator.Types.{
  Params, ResolvedPane, OutcomeDetails, ActionOutcome, CompletionExecution, World, Call, ActionRun,
}
use pi_dotfiles.Coordinator.Input.{
  notifies, reserved_spawn_name, with_manager, is_direct, begin_call, arm_for, arm_sent, run_action,
}

-- `completionArrivedDuringAction`
abbrev pub has_arrived : Call → World → Bool
has_arrived call w = elim call.arm_id [
  | none ↦ false
  | some arm_id ↦ has_delivered_arm arm_id w.manager
]

module _ (env : Env) where
  cancel_in : Option Text → World → World
  cancel_in target w = with_manager (cancel env target w.manager) w

  unfoldable pub release : Option Text → World → World
  release none w = w
  release (some name) w = with_manager (release_batch_member env name w.manager) w

  -- The case `spawn` of `reconcile`; true where the watcher of the reservation is armed.
  unfoldable pub reconcile_spawn : Call → Option RegistryEntry → World → World × Bool
  unfolding arm_for release
  reconcile_spawn call none w = (release (reserved_spawn_name call.params) w, false)
  reconcile_spawn call (some entry) w =
      let w' = if is_empty call.result_socket_path then w else record w {
        direct_result_names = KeySet.add text_discrete entry.name w.direct_result_names;
      } in
      let pane_id = or_else entry.pane_id (or_else entry.target entry.name) in
      let source =
        if is_direct entry.name w' then CompletionSource.rpc else CompletionSource.poll in
      let summary = or_else call.params.task (codes "spawned subagent task") in
      if notifies call.params
      then (arm_for env call entry.name pane_id summary source w', true)
      else (release (reserved_spawn_name call.params) w', false)

  -- The case `send`; true where no notification can come.
  unfoldable pub reconcile_send : Call → (provisional : Bool) → ResolvedPane → World → World × Bool
  unfolding cancel_in arm_sent
  reconcile_send call provisional pane w =
      let arrived = has_arrived call w in
      if not (notifies call.params)
      then (cancel_in (some pane.pane_id) w, false)
      else if is_direct pane.name w
      then (if provisional || arrived then w else arm_sent env call pane w, false)
      else (cancel_in (some pane.pane_id) w, true)

  unfoldable pub forget_direct : Text → World → World
  forget_direct name w = record w {
    direct_result_names = KeySet.delete text_discrete name w.direct_result_names;
  }

  reconcile_close : Option Text → Option Text → World → World
  unfolding cancel_in forget_direct
  reconcile_close target name w =
      let w' = cancel_in target w in
      elim name [ none ↦ w' | some n ↦ if is_empty n then w' else forget_direct n w' ]

  -- The switch of `reconcile`: the world, `automaticNotificationUnavailable`, and whether the
  -- reservation of a spawn is armed.
  unfoldable pub reconcile_details :
      Call → (provisional : Bool) → OutcomeDetails → World → World × Bool × Bool
  unfolding reconcile_spawn reconcile_send cancel_in reconcile_close
  reconcile_details call provisional (OutcomeDetails.spawned entry) w =
      let (w', armed) = reconcile_spawn call entry w in (w', false, armed)
  reconcile_details call provisional (OutcomeDetails.sent pane) w =
      let (w', unavailable) = reconcile_send call provisional pane w in (w', unavailable, false)
  reconcile_details call provisional (OutcomeDetails.waited pane) w =
      (cancel_in (some pane.pane_id) w, false, false)
  reconcile_details call provisional (OutcomeDetails.closed_entry entry) w =
      let target = elim entry.pane_id as (λ _. Option Text) [
        | some pane_id ↦ some pane_id
        | none ↦ elim call.params.target [ some t ↦ some t | none ↦ call.params.name ]
      ] in
      (reconcile_close target (some entry.name) w, false, false)
  reconcile_details call provisional (OutcomeDetails.closed_pane pane) w =
      (reconcile_close (some pane.pane_id) (some pane.name) w, false, false)
  reconcile_details call provisional _ w = (w, false, false)

  abbrev changes_registry : OutcomeDetails → Bool
  changes_registry (OutcomeDetails.spawned none) = false
  changes_registry (OutcomeDetails.spawned (some entry)) = true
  changes_registry (OutcomeDetails.sent pane) = true
  changes_registry (OutcomeDetails.closed_entry entry) = true
  changes_registry (OutcomeDetails.closed_pane pane) = true
  changes_registry _ = false

  -- The receipts of an inspection.
  unfoldable pub receipts : Call → ActionOutcome → World → ActionOutcome × World
  receipts call outcome w = elim outcome.details [
    | OutcomeDetails.inspected pane _ ↦
        let (consumed, m) =
          acknowledge env call.available pane.name pane.pane_id (join (10 ∷ []) outcome.content)
            w.manager in
        if outcome.is_error then (outcome, w) else (
          record outcome { details = OutcomeDetails.inspected pane (some consumed) },
          with_manager m w,
        )
    | _ ↦ (outcome, w)
  ]

  unfoldable pub reconcile :
      Call → (provisional : Bool) → ActionOutcome → World → CompletionExecution × World × Bool
  unfolding reconcile_details receipts
  reconcile call provisional outcome w =
      let (w1, unavailable, armed) = reconcile_details call provisional outcome.details w in
      let (result, w2) = receipts call outcome w1 in
      (
        record {
          result = result;
          registry_changed = changes_registry outcome.details;
          automatic_notification_unavailable = unavailable;
        },
        w2,
        armed,
      )

  -- The `finally` of `execute`.
  abbrev pub finally_release : Call → (armed : Bool) → World → World
  finally_release call true w = w
  finally_release call false w = release (reserved_spawn_name call.params) w

  -- The `then` and the `finally` of an action; without an outcome its promise is rejected.
  unfoldable pub settle_call :
      Call
      → (provisional : Bool) → Option ActionOutcome
      → World
      → Option CompletionExecution × World
  unfolding reconcile release
  settle_call call provisional none w = (none, finally_release call false w)
  settle_call call provisional (some outcome) w =
      let (execution, w', armed) = reconcile call provisional outcome w in
      (some execution, finally_release call armed w')

  unfoldable pub finish_call : Call → ActionRun → World → Option CompletionExecution × World
  unfolding run_action settle_call
  finish_call call run w =
      let (w', provisional, outcome) = run_action env call run w in
      settle_call call provisional outcome w'

  unfoldable pub execute :
      Params
      → (socket_path fresh : Text) → (now : ℕ) → ActionRun
      → World
      → Option CompletionExecution × World
  unfolding begin_call finish_call
  execute params socket_path fresh now run w =
      let (call, begun) = begin_call env params socket_path fresh now w in
      finish_call call run begun
