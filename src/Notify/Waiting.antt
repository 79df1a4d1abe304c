-- ===== src/Notify/Waiting.antt =====
-- What becomes of a report that `maybeDeliverCompletedGroup` of herdr-subagent/notifications.ts does
-- not send at once.
use pi_dotfiles.Prelude.{ℕ, ◌≡◌, ◌⊎◌, if◌then◌else◌, none, some, ℕ_discrete}
use pi_dotfiles.Prelude.Dict
use pi_dotfiles.Prelude.KeySet
use pi_dotfiles.Notify.Types.{NotificationDelivery, CompletionGroup, Env}
use pi_dotfiles.Notify.State.{Manager, Timer, Callback}
use pi_dotfiles.Notify.Members.{with_report}

-- A group has no timer yet, or one that is set and ends in this group's `onGroupTimeout`.
unfoldable pub IsTimed : CompletionGroup → Manager → Type 0
IsTimed g s =
    (g.timeout ≡ none)
    ⊎ ((h : ℕ) × (t : Timer) × (g.timeout ≡ some h)
        × (Dict.get ℕ_discrete h s.timers ≡ some t)
        × (t.callback ≡ Callback.group_join g.id))

module _ (env : Env) where
  module _ (d : NotificationDelivery) (s : Manager) (g : CompletionGroup) where
    -- The state after a report that does not complete its group: the group has the report and the
    -- handle of a timer that is set.
    Waits : ℕ → Timer → Manager → Type 0
    Waits h t s' =
        (s'.sent ≡ s.sent)
        × (Dict.get ℕ_discrete h s'.timers ≡ some t)
        × (t.callback ≡ Callback.group_join g.id)
        × (((g.timeout ≡ some h) × (Dict.get ℕ_discrete h s.timers ≡ some t))
            ⊎ ((g.timeout ≡ none)
                × (h ≡ s.next_handle)
                × (t.delay ≡ (
                    if g.is_straggler
                    then s.options.straggler_join_timeout
                    else s.options.group_join_timeout))))
        × (Dict.get ℕ_discrete g.id s'.groups
            ≡ some (record (with_report d g) { timeout = some h }))
