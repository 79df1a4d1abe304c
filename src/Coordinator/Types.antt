-- ===== src/Coordinator/Types.antt =====
-- The data of herdr-subagent/completion.ts, and of the action outcomes that it reads.
use pi_dotfiles.Prelude.{ℕ, Bool, Option, List, Text}
use pi_dotfiles.Notify.Types.{NotificationDelivery}
use pi_dotfiles.Notify.State.{Manager}
use pi_dotfiles.Notify.Manager.{Event}
use pi_dotfiles.Registry.Types.{RegistryEntry}
use pi_dotfiles.Coordinator.Arms.{ArmFiles, WriteFault}

pub data Action : Type 0 where
  status agent_types spawn inspect send wait focus close : Action

pub record Params : Type 0 where
  pub action : Action
  pub name : Option Text
  pub target : Option Text
  pub task : Option Text
  pub message : Option Text
  pub notify : Option Bool

pub record ResolvedPane : Type 0 where
  pub name : Text
  pub pane_id : Text

-- The `details` of an outcome, as far as the coordinator reads them. An inspection carries the
-- completions that it consumed.
pub data OutcomeDetails : Type 0 where
  status agent_types focused : OutcomeDetails
  spawned : Option RegistryEntry → OutcomeDetails
  inspected : ResolvedPane → (consumed_completions : Option (List Text)) → OutcomeDetails
  sent waited : ResolvedPane → OutcomeDetails
  closed_entry : RegistryEntry → OutcomeDetails
  closed_pane : ResolvedPane → OutcomeDetails

pub record ActionOutcome : Type 0 where
  pub details : OutcomeDetails
  pub is_error : Bool
  pub content : List Text

pub record CompletionExecution : Type 0 where
  pub result : ActionOutcome
  pub registry_changed : Bool
  pub automatic_notification_unavailable : Bool

-- The manager of the session's watchers, the coordinator's own state, and the files of the arms.
pub record World : Type 0 where
  pub manager : Manager
  pub direct_result_names : List Text
  pub arms : ArmFiles

-- What runs between the steps of an action: an event of the manager, and a call of
-- `adoptDirectResult` or `reset`.
pub data Other : Type 0 where
  event : Event → Other
  adopts : (name : Text) → Other
  resets : Other

-- What one call of `execute` captures before the action runs. `arm_id` is a new identity.
pub record Call : Type 0 where
  pub params : Params
  pub result_socket_path : Text
  pub accept_results_since : ℕ
  pub arm_id : Option Text
  pub available : List NotificationDelivery

-- One call of `runInput`: what of its effects succeeds, and what runs while the input is sent.
pub record Attempt : Type 0 where
  pub pane : ResolvedPane
  pub readable : Bool
  pub arm_fault : WriteFault
  pub during : List Other
  pub dispatched : Bool
  pub restore_fault : WriteFault

-- What `executeAction` does: it ends without an input, or it runs one and then ends. It fails where
-- it has no outcome.
pub data ActionRun : Type 0 where
  without_input : List Other → Option ActionOutcome → ActionRun
  with_input : List Other → Attempt → List Other → Option ActionOutcome → ActionRun
