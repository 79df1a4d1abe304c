-- ===== src/Notify/State.antt =====
-- The variables that `createSubagentNotificationManager` closes over, and its operations on timers
-- and on the batch of arms.
use pi_dotfiles.Prelude.{
  ℕ, suc, Bool, false, ltb, ◌==◌, if◌then◌else◌, Option, none, some, List, [], ◌∷◌, ◌++◌, Text,
  text_discrete, ℕ_discrete, length, is_empty,
}
use pi_dotfiles.Prelude.Dict
use pi_dotfiles.Prelude.KeySet
use pi_dotfiles.Notify.Types.{
  ArmedNotification, WatcherSlot, PendingArmBatch, NotificationDelivery, CompletionGroup,
  ExternalResult, Message,
}

pub record Options : Type 0 where
  pub arm_batch_window : ℕ
  pub group_join_timeout : ℕ
  pub straggler_join_timeout : ℕ

-- What a timer does when it fires. `idle` is the empty callback of `ensureArmBatch`.
pub data Callback : Type 0 where
  idle : Callback
  batch_window : (batch : ℕ) → Callback
  group_join : (group : ℕ) → Callback

pub record Timer : Type 0 where
  pub callback : Callback
  pub delay : ℕ

-- A controller and a timer handle are numbers given out in turn. `timers` holds the timers that are
-- set and neither fired nor cleared, `aborted` the controllers that were aborted, `running` the
-- fibers started, and `sent` every message handed to `pi.sendMessage`, oldest first.
pub record Manager : Type 0 where
  pub options : Options
  pub watchers : List (Text × WatcherSlot)
  pub groups : List (ℕ × CompletionGroup)
  pub key_to_group : List (Text × ℕ)
  pub delivered_completion_ids : List Text
  pub delivered_arm_ids : List Text
  pub pending_external : List (Text × List ExternalResult)
  pub ready_reports : List ((Text × Text) × NotificationDelivery)
  pub next_batch_id : ℕ
  pub current_arm_batch : Option PendingArmBatch
  pub next_handle : ℕ
  pub timers : List (ℕ × Timer)
  pub next_controller : ℕ
  pub aborted : List ℕ
  pub running : List (ℕ × ArmedNotification)
  pub sent : List Message

unfoldable pub initial : Options → Manager
initial options = record {
  options = options;
  watchers = [];
  groups = [];
  key_to_group = [];
  delivered_completion_ids = [];
  delivered_arm_ids = [];
  pending_external = [];
  ready_reports = [];
  next_batch_id = 1;
  current_arm_batch = none;
  next_handle = 0;
  timers = [];
  next_controller = 0;
  aborted = [];
  running = [];
  sent = [];
}

abbrev pub send : Message → Manager → Manager
send m s = record s { sent = s.sent ++ m ∷ [] }

abbrev pub abort : ℕ → Manager → Manager
abort c s = record s { aborted = s.aborted ++ c ∷ [] }

abbrev pub clear_timeout : ℕ → Manager → Manager
clear_timeout h s = record s { timers = Dict.delete ℕ_discrete h s.timers }

-- `clearTimeout` of a handle that may be undefined.
abbrev pub clear_if_set : Option ℕ → Manager → Manager
clear_if_set none s = s
clear_if_set (some h) s = clear_timeout h s

-- The new timer has the handle `s.next_handle`.
abbrev pub set_timeout : Callback → ℕ → Manager → Manager
set_timeout f delay s = record s {
  next_handle = suc s.next_handle;
  timers = (s.next_handle, record { callback = f; delay = delay }) ∷ s.timers;
}

abbrev pub batch_is : ℕ → Option PendingArmBatch → Bool
batch_is id none = false
batch_is id (some b) = b.id == id

abbrev pub batch_has : Text → Option PendingArmBatch → Bool
batch_has key none = false
batch_has key (some b) = KeySet.has text_discrete key b.keys

unfoldable pub clear_batch : PendingArmBatch → Manager → Manager
clear_batch b s = record (clear_timeout b.timeout s) {
  current_arm_batch = if batch_is b.id s.current_arm_batch then none else s.current_arm_batch;
}

-- Makes the group of a batch of two or more.
unfoldable pub finalize_arm_batch : PendingArmBatch → Manager → Manager
unfolding clear_batch
finalize_arm_batch b s =
    let cleared = clear_batch b s in
    let group : CompletionGroup = record {
      id = b.id;
      member_keys = b.keys;
      completed = [];
      timeout = none;
      is_straggler = false;
    } in
    if ltb (length b.keys) 2 then cleared else record cleared {
      groups = Dict.set ℕ_discrete b.id group cleared.groups;
      key_to_group = Dict.set_all text_discrete b.keys b.id cleared.key_to_group;
    }

unfoldable pub finalize_current_arm_batch_for : Text → Manager → Manager
unfolding finalize_arm_batch
finalize_current_arm_batch_for key s = elim s.current_arm_batch [
  | none ↦ s
  | some b ↦ if KeySet.has text_discrete key b.keys then finalize_arm_batch b s else s
]

remove_key_from_batch : Text → PendingArmBatch → Manager → Manager
unfolding clear_batch
remove_key_from_batch key b s =
    let smaller = record b { keys = KeySet.delete text_discrete key b.keys } in
    let s' = record s { current_arm_batch = some smaller } in
    if is_empty smaller.keys then clear_batch smaller s' else s'

unfoldable pub remove_key_from_current_batch : Text → Manager → Manager
unfolding remove_key_from_batch
remove_key_from_current_batch key s = elim s.current_arm_batch [
  | none ↦ s
  | some b ↦ if KeySet.has text_discrete key b.keys then remove_key_from_batch key b s else s
]

-- The batch object is shared with `current_arm_batch`, which the new handle is written to.
unfoldable pub reset_arm_batch_timer : PendingArmBatch → Manager → Manager
reset_arm_batch_timer b s =
    let cleared = clear_timeout b.timeout s in
    record (set_timeout (batch_window b.id) s.options.arm_batch_window cleared) {
      current_arm_batch = some (record b { timeout = s.next_handle });
    }

unfoldable pub ensure_arm_batch : Manager → Manager
unfolding reset_arm_batch_timer
ensure_arm_batch s = elim s.current_arm_batch [
  | some b ↦ s
  | none ↦
      reset_arm_batch_timer (record { id = s.next_batch_id; keys = []; timeout = s.next_handle })
        (record (set_timeout idle 0 s) { next_batch_id = suc s.next_batch_id })
]

add_key_to_batch : Text → Manager → Manager
unfolding reset_arm_batch_timer
add_key_to_batch key s = elim s.current_arm_batch [
  | none ↦ s
  | some b ↦ reset_arm_batch_timer (record b { keys = KeySet.add text_discrete key b.keys }) s
]

unfoldable pub add_key_to_current_batch : Text → Manager → Manager
unfolding ensure_arm_batch add_key_to_batch
add_key_to_current_batch key s = add_key_to_batch key (ensure_arm_batch s)
