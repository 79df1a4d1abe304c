-- ===== src/Notify/Poll/Trust.antt =====
-- Which statuses end the polling of `waitForNotificationState`.
use pi_dotfiles.Prelude.{
  ℕ, suc, ◌+◌, ◌≤◌, ◌<◌, ◌≡◌, ◌≢◌, refl, Bool, true, false, Option, Option-cases, none, some, List,
  [], ◌∷◌, All, arith, inl, inr, ◌⊎◌,
}
use pi_dotfiles.Notify.Types.{ArmedNotification, CompletionSource, ExternalResult, Observed}
use pi_dotfiles.Notify.Report.{or_else}
use pi_dotfiles.Notify.Poll.{
  AgentStatus, Observation, PollState, Outcome, Round, unsettled, poll_round, status_round,
  settle_round, fresh_result, wait_for_notification_state,
}

Round-cases :
    (r : Round) → ((o : Outcome) × (r ≡ Round.ends o)) ⊎ ((p : PollState) × (r ≡ Round.sleeps p))
Round-cases (Round.ends o) = inl (o, refl)
Round-cases (Round.sleeps p) = inr (p, refl)

-- A terminal status of an agent, as the loop returns it.
abbrev pub settled_status : AgentStatus → Option Observed
settled_status AgentStatus.done = some Observed.done
settled_status AgentStatus.blocked = some Observed.blocked
settled_status AgentStatus.idle = some Observed.idle
settled_status _ = none

-- The loop has seen no working phase, and its first settled status came at `start` or later.
abbrev pub IsStarting : ℕ → PollState → Type 0
IsStarting start p = (p.observed_working ≡ false) × (start ≤ or_else p.first_settled_at start)

abbrev pub IsEarly : ℕ → Observation → Type 0
IsEarly start o = (start ≤ o.now) × (o.now < start + 10000) × (o.status ≢ AgentStatus.working)

abbrev SleepsEarly : ℕ → Round → Type 0
SleepsEarly start r = (p : PollState) × (r ≡ Round.sleeps p) × IsStarting start p

settle_early :
    (start now : ℕ) (status : Observed) (p : PollState)
    → IsStarting start p
    → start ≤ now
    → now < start + 10000
    → SleepsEarly start (settle_round status now p)
unfolding settle_round
settle_early start now status p s lo hi = (
  record p {
    consecutive_settled = suc p.consecutive_settled;
    first_settled_at = some (or_else p.first_settled_at now);
  },
  ground arith,
  ground arith,
)

status_early :
    (rpc : Bool) (status : AgentStatus) (start now : ℕ) (p : PollState)
    → IsStarting start p
    → start ≤ now
    → now < start + 10000
    → status ≢ AgentStatus.working
    → SleepsEarly start (status_round rpc status now p)
unfolding status_round
status_early rpc AgentStatus.working start now p s lo hi other = absurd (other refl)
status_early true AgentStatus.done start now p s lo hi other = (unsettled p, refl, ground arith)
status_early false AgentStatus.done start now p s lo hi other =
    settle_early start now Observed.done p s lo hi
status_early true AgentStatus.idle start now p s lo hi other = (unsettled p, refl, ground arith)
status_early false AgentStatus.idle start now p s lo hi other =
    settle_early start now Observed.idle p s lo hi
status_early rpc AgentStatus.blocked start now p s lo hi other =
    settle_early start now Observed.blocked p s lo hi
status_early rpc AgentStatus.unknown start now p s lo hi other = (unsettled p, refl, ground arith)

module _ (n : ArmedNotification) where
  rpc_round :
      (o : Observation) (p : PollState) (status : Observed)
      → n.completion_source ≡ some CompletionSource.rpc
      → poll_round n o p ≡ Round.ends (Outcome.observed status)
      → status ≡ Observed.blocked
  unfolding poll_round
  rpc_round o p status rpc h = ground arith

  -- Of a subagent with a result socket no terminal status ends the polling but `blocked`; its
  -- completion arrives as a result.
  pub rpc_ends_blocked :
      (os : List Observation) (p : PollState) (status : Observed)
      → n.completion_source ≡ some CompletionSource.rpc
      → wait_for_notification_state n os p ≡ some (Outcome.observed status)
      → status ≡ Observed.blocked
  unfolding wait_for_notification_state
  rpc_ends_blocked [] p status rpc h = cc
  rpc_ends_blocked (o ∷ os) p status rpc h = elim (Round-cases (poll_round n o p)) [
    | inl (outcome, e) ↦ rpc_round o p status rpc (ground arith)
    | inr (p', e) ↦ rpc_ends_blocked os p' status rpc (ground arith)
  ]

  early_round :
      (start : ℕ) (o : Observation) (p : PollState)
      → IsStarting start p
      → IsEarly start o
      → ((r : ExternalResult) × (poll_round n o p ≡ Round.ends (Outcome.persisted r)))
        ⊎ SleepsEarly start (poll_round n o p)
  unfolding poll_round
  early_round start o p s (lo, hi, other) = elim (Option-cases (fresh_result n o.persisted)) [
    | inl e ↦ inr (rw (e, poll_round) (status_early _ o.status start o.now p s lo hi other))
    | inr (r, e) ↦ inl (r, rw (e, poll_round))
  ]

  -- Before an observed working phase no status is trusted for the first ten seconds: within them the
  -- polling ends by a persisted result or not at all.
  pub early_status_ignored :
      (start : ℕ) (os : List Observation) (p : PollState) (status : Observed)
      → IsStarting start p
      → All (IsEarly start) os
      → wait_for_notification_state n os p ≢ some (Outcome.observed status)
  unfolding wait_for_notification_state
  early_status_ignored start [] p status s e = cc
  early_status_ignored start (o ∷ os) p status s (now, later) = elim (early_round start o p s now) [
    | inl (r, e) ↦ λ h. ground arith
    | inr (p', e, s') ↦ λ h. early_status_ignored start os p' status s' later (ground arith)
  ]

  -- After a working phase a subagent without a result socket is done, or blocked, as soon as it is
  -- seen so.
  ends_after_working :
      (w o : Observation) (os : List Observation) (p : PollState) (status : Observed)
      → n.completion_source ≢ some CompletionSource.rpc
      → w.status ≡ AgentStatus.working
      → settled_status o.status ≡ some status
      → status ≢ Observed.idle
      → wait_for_notification_state n (w ∷ o ∷ os) p ≡ some (Outcome.observed status)
  unfolding wait_for_notification_state
  ends_after_working w o os p status poll work seen busy = ground arith

  -- After a working phase a subagent without a result socket that is seen idle once is still polled,
  -- and seen idle twice in a row it is idle.
  idle_after_working :
      (w o1 o2 : Observation) (os : List Observation) (p : PollState)
      → n.completion_source ≢ some CompletionSource.rpc
      → w.status ≡ AgentStatus.working
      → o1.status ≡ AgentStatus.idle
      → o2.status ≡ AgentStatus.idle
      → (wait_for_notification_state n (w ∷ o1 ∷ []) p ≡ none)
        × (wait_for_notification_state n (w ∷ o1 ∷ o2 ∷ os) p
            ≡ some (Outcome.observed Observed.idle))
  unfolding wait_for_notification_state
  idle_after_working w o1 o2 os p poll work first second = ground arith
