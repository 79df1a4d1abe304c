-- ===== src/Notify/Poll/Tests.antt =====
-- `waitForNotificationState` at concrete observations.
use pi_dotfiles.Prelude.{ℕ, ◌≡◌, ◌≢◌, refl, arith, Option, none, some, [], ◌∷◌, codes}
use pi_dotfiles.Notify.Types.{ArmedNotification, CompletionSource, Observed}
use pi_dotfiles.Notify.Poll.{
  AgentStatus, Observation, Outcome, initial_poll, wait_for_notification_state,
}
use pi_dotfiles.Notify.Poll.Trust.{rpc_ends_blocked, early_status_ignored}

abbrev watched : Option CompletionSource → ArmedNotification
watched source = record {
  name = codes "a";
  pane_id = codes "p";
  summary_source = codes "task";
  completion_source = source;
  accept_results_since = some 5;
  expected_arm_id = none;
}

abbrev seen : AgentStatus → ℕ → Observation
seen status now = record { persisted = none; status = status; now = now }

without_socket : (watched none).completion_source ≢ some CompletionSource.rpc
without_socket = cc

rpc_ends_blocked_example : Observed.blocked ≡ Observed.blocked
unfolding wait_for_notification_state
rpc_ends_blocked_example =
    rpc_ends_blocked (watched (some CompletionSource.rpc))
      (seen AgentStatus.working 1 ∷ seen AgentStatus.done 2 ∷ seen AgentStatus.blocked 3 ∷ [])
      initial_poll Observed.blocked refl refl

early_status_ignored_example :
    wait_for_notification_state
      (watched none)
      (seen AgentStatus.done 2000 ∷ seen AgentStatus.done 4000 ∷ [])
      initial_poll
    ≢ some (Outcome.observed Observed.done)
early_status_ignored_example =
    early_status_ignored (watched none) 2000
      (seen AgentStatus.done 2000 ∷ seen AgentStatus.done 4000 ∷ []) initial_poll Observed.done
      (refl, omega arith) ((omega arith, omega arith, cc), ((omega arith, omega arith, cc), tt))
