-- ===== src/Notify/Poll.antt =====
-- `waitForNotificationState` and `watchSubagent` of herdr-subagent/notifications.ts: the loop that
-- polls a pane until its status is to be trusted.
pub mod Trust
mod Tests
use pi_dotfiles.Prelude.{
  ℕ, suc, ◌+◌, ◌-◌, Bool, true, false, leb, ltb, ◌&&◌, ◌||◌, not, if◌then◌else◌, Option, none, some,
  List, [], ◌∷◌,
}
use pi_dotfiles.Notify.Types.{
  ArmedNotification, CompletionSource, ExternalResult, Observed, NotificationState, WatchCompletion,
  WatchedNotification,
}
use pi_dotfiles.Notify.Report.{or_else}
use pi_dotfiles.Prelude.{Text}

-- The status of a live agent; `unknown` is every other text, and the answer of a failed call.
pub data AgentStatus : Type 0 where
  working done blocked idle unknown : AgentStatus

-- What one round of the loop reads: the persisted completion of the subagent, if there is one, the
-- status of its agent, and the clock.
pub record Observation : Type 0 where
  pub persisted : Option ExternalResult
  pub status : AgentStatus
  pub now : ℕ

-- The variables of the loop.
pub record PollState : Type 0 where
  pub consecutive_settled : ℕ
  pub first_settled_at : Option ℕ
  pub observed_working : Bool

pub data Outcome : Type 0 where
  persisted : ExternalResult → Outcome
  observed : Observed → Outcome

pub data Round : Type 0 where
  ends : Outcome → Round
  sleeps : PollState → Round

abbrev pub initial_poll : PollState
initial_poll = record { consecutive_settled = 0; first_settled_at = none; observed_working = false }

abbrev pub idle_confirmations : ℕ
idle_confirmations = 2

abbrev pub startup_stability : ℕ
startup_stability = 10000

abbrev pub is_rpc : Option CompletionSource → Bool
is_rpc (some CompletionSource.rpc) = true
is_rpc _ = false

abbrev pub unsettled : PollState → PollState
unsettled p = record p { consecutive_settled = 0; first_settled_at = none }

abbrev is_idle : Observed → Bool
is_idle Observed.idle = true
is_idle _ = false

-- A settled status is seen. `now - firstSettledAt` is not negative, since the clock is not set back.
settle_round : Observed → ℕ → PollState → Round
settle_round status now p =
    let first = or_else p.first_settled_at now in
    let count = suc p.consecutive_settled in
    let trusted =
      if p.observed_working
      then not (is_idle status) || leb idle_confirmations count
      else leb idle_confirmations count && leb startup_stability (now - first) in
    if trusted
    then Round.ends (Outcome.observed status)
    else Round.sleeps (record p { consecutive_settled = count; first_settled_at = some first })

status_round : Bool → AgentStatus → ℕ → PollState → Round
unfolding settle_round
status_round rpc AgentStatus.working now p =
    Round.sleeps (record (unsettled p) { observed_working = true })
status_round rpc AgentStatus.done now p =
    if rpc then Round.sleeps (unsettled p) else settle_round Observed.done now p
status_round rpc AgentStatus.idle now p =
    if rpc then Round.sleeps (unsettled p) else settle_round Observed.idle now p
status_round rpc AgentStatus.blocked now p = settle_round Observed.blocked now p
status_round rpc AgentStatus.unknown now p = Round.sleeps (unsettled p)

-- The persisted completion that an RPC watcher takes: it must not be older than the arm.
unfoldable pub fresh_result : ArmedNotification → Option ExternalResult → Option ExternalResult
fresh_result n none = none
fresh_result n (some r) =
    if is_rpc n.completion_source && leb (or_else n.accept_results_since 0) r.sent_at
    then some r
    else none

poll_round : ArmedNotification → Observation → PollState → Round
unfolding status_round fresh_result
poll_round n o p = elim (fresh_result n o.persisted) [
  | some r ↦ Round.ends (Outcome.persisted r)
  | none ↦ status_round (is_rpc n.completion_source) o.status o.now p
]

-- The loop over what it reads round after round; `none` means that it still polls.
unfoldable pub wait_for_notification_state :
    ArmedNotification → List Observation → PollState → Option Outcome
unfolding poll_round
wait_for_notification_state n [] p = none
wait_for_notification_state n (o ∷ os) p = elim (poll_round n o p) [
  | Round.ends outcome ↦ some outcome
  | Round.sleeps p' ↦ wait_for_notification_state n os p'
]

abbrev notification_state : Observed → NotificationState
notification_state Observed.blocked = NotificationState.blocked
notification_state _ = NotificationState.done

-- What the watcher of a subagent reports, given the tail of its pane.
unfoldable pub watch_completion : ArmedNotification → Text → Outcome → WatchCompletion
watch_completion n tail (Outcome.persisted r) = WatchCompletion.result n.name r
watch_completion n tail (Outcome.observed o) = WatchCompletion.notification (record {
  armed = n;
  completion_id = none;
  state = notification_state o;
  observed = o;
  pane_tail = tail;
})
