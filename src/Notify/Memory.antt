-- ===== src/Notify/Memory.antt =====
-- What the manager of herdr-subagent/notifications.ts remembers of deliveries, as a part of its
-- state, under the operations on batches and groups.
use pi_dotfiles.Prelude.{
  ℕ, ◌≡◌, refl, ap, ◌∙◌, Option, none, some, List, Text, arith, text_discrete, ℕ_discrete,
}
use pi_dotfiles.Prelude.Dict
use pi_dotfiles.Notify.Types.{
  WatcherSlot, ExternalResult, NotificationDelivery, PendingArmBatch, CompletionGroup, Env,
}
use pi_dotfiles.Notify.State.{
  Manager, clear_batch, finalize_arm_batch, finalize_current_arm_batch_for,
  remove_key_from_current_batch, add_key_to_current_batch, clear_if_set,
}
use pi_dotfiles.Notify.Groups.{
  cleanup_group, on_group_timeout, maybe_deliver_completed_group, remove_key_from_group,
}
use pi_dotfiles.Notify.Report.{remember_report, process_completion, file_in_group, file_report}

pub record Memory : Type 0 where
  pub watchers : List (Text × WatcherSlot)
  pub completions : List Text
  pub arms : List Text
  pub pending : List (Text × List ExternalResult)
  pub reports : List ((Text × Text) × NotificationDelivery)

abbrev pub memory : Manager → Memory
memory s = record {
  watchers = s.watchers;
  completions = s.delivered_completion_ids;
  arms = s.delivered_arm_ids;
  pending = s.pending_external;
  reports = s.ready_reports;
}

pub memory-finalize :
    (b : PendingArmBatch) (s : Manager) → memory (finalize_arm_batch b s) ≡ memory s
unfolding finalize_arm_batch
memory-finalize b s = ground arith

pub memory-finalize_current :
    (k : Text) (s : Manager) → memory (finalize_current_arm_batch_for k s) ≡ memory s
unfolding finalize_current_arm_batch_for
memory-finalize_current k s = ground arith

pub memory-remove_from_batch :
    (k : Text) (s : Manager) → memory (remove_key_from_current_batch k s) ≡ memory s
unfolding remove_key_from_current_batch
memory-remove_from_batch k s = ground arith

pub memory-add_to_batch :
    (k : Text) (s : Manager) → memory (add_key_to_current_batch k s) ≡ memory s
unfolding add_key_to_current_batch
memory-add_to_batch k s = ground arith

pub memory-clear_batch : (b : PendingArmBatch) (s : Manager) → memory (clear_batch b s) ≡ memory s
unfolding clear_batch
memory-clear_batch b s = refl

memory-clear_if_set : (h : Option ℕ) (s : Manager) → memory (clear_if_set h s) ≡ memory s
memory-clear_if_set none s = refl
memory-clear_if_set (some h) s = refl

memory-cleanup : (id : ℕ) (s : Manager) → memory (cleanup_group id s) ≡ memory s
unfolding cleanup_group
memory-cleanup id s = ground arith

module _ (env : Env) where
  pub memory-maybe_deliver :
      (g : CompletionGroup) (s : Manager)
      → memory (maybe_deliver_completed_group env g s) ≡ memory s
  unfolding maybe_deliver_completed_group
  memory-maybe_deliver g s = ground arith

  pub memory-group_timeout : (id : ℕ) (s : Manager) → memory (on_group_timeout env id s) ≡ memory s
  unfolding on_group_timeout
  memory-group_timeout id s = ground arith

  pub memory-remove_from_group :
      (k : Text) (s : Manager) → memory (remove_key_from_group env k s) ≡ memory s
  unfolding remove_key_from_group
  memory-remove_from_group k s = ground arith

module _ (env : Env) where
  memory-file_in_group :
      (d : NotificationDelivery) (o : Option CompletionGroup) (s : Manager)
      → memory (file_in_group env d o s) ≡ memory s
  unfolding file_in_group
  memory-file_in_group d none s = refl
  memory-file_in_group d (some g) s = memory-maybe_deliver env _ _

  memory-file_report :
      (d : NotificationDelivery) (o : Option ℕ) (s : Manager)
      → memory (file_report env d o s) ≡ memory s
  unfolding file_report
  memory-file_report d none s = refl
  memory-file_report d (some id) s = memory-file_in_group d (Dict.get ℕ_discrete id s.groups) s

  -- A completion is remembered as a report, and ends the watcher of its key.
  pub memory-process_completion :
      (d : NotificationDelivery) (s : Manager)
      → memory (process_completion env d s) ≡ record (memory (remember_report d s)) {
        watchers = Dict.delete text_discrete d.key s.watchers;
      }
  unfolding process_completion remember_report
  memory-process_completion d s =
      memory-file_report d _ _
      ∙ ap {A = Memory} {B = Memory}
          (λ m. record m { watchers = Dict.delete text_discrete d.key m.watchers })
          (memory-finalize_current d.key (remember_report d s))
