-- ===== src/Notify/Manager.antt =====
-- The remaining methods of `createSubagentNotificationManager`, and the manager as a machine that
-- takes one event at a time.
use pi_dotfiles.Prelude.{
  ℕ, Bool, true, false, ◌==◌, if◌then◌else◌, Option, none, some, List, [], ◌∷◌, Text, text_discrete,
  ℕ_discrete, pick,
}
use pi_dotfiles.Prelude.Dict
use pi_dotfiles.Prelude.KeySet
use pi_dotfiles.Notify.Types.{
  ArmedNotification, WatcherSlot, PendingArmBatch, NotificationDelivery, CompletionGroup,
  ExternalResult, WatchCompletion, Env,
}
use pi_dotfiles.Notify.State.{
  Manager, Callback, abort, clear_timeout, clear_if_set, clear_batch, finalize_arm_batch,
  remove_key_from_current_batch,
}
use pi_dotfiles.Notify.Groups.{on_group_timeout, remove_key_from_group}
use pi_dotfiles.Notify.Report.{process_external_result}
use pi_dotfiles.Notify.Inspection.{acknowledge}
use pi_dotfiles.Notify.Watchers.{
  begin_batch_member, release_batch_member, arm, watcher_settled, watcher_failed,
}

abbrev pub answers_to : Text → WatcherSlot → Bool
answers_to target slot =
    pick (text_discrete slot.name target) true (pick (text_discrete slot.pane_id target) true false)

unfoldable pub accept_in :
    Text → Text → List (Text × WatcherSlot) → List (Text × WatcherSlot) × Bool
accept_in target arm_id [] = ([], false)
accept_in target arm_id ((k, slot) ∷ m) =
    let (rest, accepted) = accept_in target arm_id m in
    if answers_to target slot
    then (
      (k, record slot { accepted_arm_ids = KeySet.add text_discrete arm_id slot.accepted_arm_ids })
          ∷ rest,
      true,
    )
    else ((k, slot) ∷ rest, accepted)

unfoldable pub accept_arm : Text → Text → Manager → Manager × Bool
accept_arm target arm_id s =
    let (watchers, accepted) = accept_in target arm_id s.watchers in
    (record s { watchers = watchers }, accepted)

unfoldable pub has_delivered_arm : Text → Manager → Bool
has_delivered_arm arm_id s = KeySet.has text_discrete arm_id s.delivered_arm_ids

unfoldable pub watcher_keys : Text → List (Text × WatcherSlot) → List Text → List Text
watcher_keys target [] found = found
watcher_keys target ((k, slot) ∷ m) found =
    watcher_keys target m
      (if answers_to target slot then KeySet.add text_discrete slot.key found else found)

abbrev pub reports_to : Text → NotificationDelivery → Bool
reports_to target d =
    pick (text_discrete d.name target) true (pick (text_discrete d.pane_id target) true false)

unfoldable pub completed_keys : Text → List (Text × NotificationDelivery) → List Text → List Text
completed_keys target [] found = found
completed_keys target ((k, d) ∷ m) found =
    completed_keys target m
      (if reports_to target d then KeySet.add text_discrete d.key found else found)

unfoldable pub group_keys : Text → List (ℕ × CompletionGroup) → List Text → List Text
group_keys target [] found = found
group_keys target ((id, g) ∷ m) found =
    group_keys target m (completed_keys target g.completed found)

-- The keys that `cancel` collects.
unfoldable pub matching_keys : Text → Manager → List Text
matching_keys target s = group_keys target s.groups (watcher_keys target s.watchers [])

unfoldable pub abort_all : List (Text × WatcherSlot) → Manager → Manager
abort_all [] s = s
abort_all ((k, slot) ∷ m) s = abort_all m (abort slot.controller s)

unfoldable pub clear_group_timers : List (ℕ × CompletionGroup) → Manager → Manager
clear_group_timers [] s = s
clear_group_timers ((id, g) ∷ m) s = clear_group_timers m (clear_if_set g.timeout s)

abbrev pub clear_current : Option PendingArmBatch → Manager → Manager
clear_current none s = s
clear_current (some b) s = clear_batch b s

abbrev pub drop_watcher : Text → Option WatcherSlot → Manager → Manager
drop_watcher key none s = s
drop_watcher key (some slot) s = record (abort slot.controller s) {
  watchers = Dict.delete text_discrete key s.watchers;
}

unfoldable pub cancel_all : Manager → Manager
cancel_all s =
    let s1 = record (abort_all s.watchers s) { watchers = [] } in
    let s2 = clear_group_timers s1.groups (clear_current s1.current_arm_batch s1) in
    record s2 {
      groups = [];
      key_to_group = [];
      delivered_completion_ids = [];
      delivered_arm_ids = [];
      pending_external = [];
      ready_reports = [];
    }

module _ (env : Env) where
  unfoldable pub cancel_key : Text → Manager → Manager
  cancel_key key s =
      let s' = drop_watcher key (Dict.get text_discrete key s.watchers) s in
      remove_key_from_group env key (
        remove_key_from_current_batch key
          (record s' { pending_external = Dict.delete text_discrete key s'.pending_external }))

  unfoldable pub cancel_keys : List Text → Manager → Manager
  cancel_keys [] s = s
  cancel_keys (k ∷ ks) s = cancel_keys ks (cancel_key k s)

  -- `cancel(target)`; an absent and an empty target cancel nothing.
  unfoldable pub cancel : Option Text → Manager → Manager
  cancel none s = s
  cancel (some []) s = s
  cancel (some (c ∷ t)) s =
      let s' = cancel_keys (matching_keys (c ∷ t) s) s in
      record s' { pending_external = Dict.delete text_discrete (c ∷ t) s'.pending_external }

  unfoldable pub deliver_external : Text → ExternalResult → Manager → Manager
  deliver_external name r s = (process_external_result env name r s).0

  -- What a timer that fires calls.
  unfoldable pub run_callback : Callback → Manager → Manager
  run_callback Callback.idle s = s
  run_callback (Callback.batch_window id) s = elim s.current_arm_batch [
    | none ↦ s
    | some b ↦ if b.id == id then finalize_arm_batch b s else s
  ]
  run_callback (Callback.group_join id) s = on_group_timeout env id s

  -- The clock fires a timer that is set; it is then no longer set.
  unfoldable pub fire : ℕ → Manager → Manager
  fire h s = elim (Dict.get ℕ_discrete h s.timers) [
    | none ↦ s
    | some t ↦ run_callback t.callback (clear_timeout h s)
  ]

-- What happens to a manager: the calls of the methods that change it, of the function that
-- `beginInspection` returns, and of the callbacks of the runtime. The reports of an
-- acknowledgement are any list; `beginInspection` takes those that are ready when it is called.
pub data Event : Type 0 where
  begins releases : (name : Text) → Event
  arms : ArmedNotification → (now : ℕ) → Event
  accepts : (target arm_id : Text) → Event
  delivers : (name : Text) → ExternalResult → Event
  cancels : (target : Option Text) → Event
  cancels_all : Event
  acknowledges : (available : List NotificationDelivery) → (name pane_id text : Text) → Event
  fires : (handle : ℕ) → Event
  settles : (key : Text) (controller : ℕ) → ArmedNotification → WatchCompletion → Event
  fails : (key : Text) (controller : ℕ) → Event

unfoldable pub step : Env → Event → Manager → Manager
step env (Event.begins name) s = begin_batch_member env name s
step env (Event.releases name) s = release_batch_member env name s
step env (Event.arms n now) s = arm env n now s
step env (Event.accepts target arm_id) s = (accept_arm target arm_id s).0
step env (Event.delivers name r) s = deliver_external env name r s
step env (Event.cancels target) s = cancel env target s
step env Event.cancels_all s = cancel_all s
step env (Event.acknowledges available name pane_id text) s =
    (acknowledge env available name pane_id text s).1
step env (Event.fires h) s = fire env h s
step env (Event.settles key controller n c) s = watcher_settled env key controller n c s
step env (Event.fails key controller) s = watcher_failed env key controller s

unfoldable pub run : Env → List Event → Manager → Manager
run env [] s = s
run env (e ∷ es) s = run env es (step env e s)
