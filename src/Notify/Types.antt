-- ===== src/Notify/Types.antt =====
-- The data of herdr-subagent/notifications.ts. An optional field is an `Option`; a `Map` or a `Set`
-- is a list in insertion order; the group identifier `arm-batch-N` is the number N.
use pi_dotfiles.Prelude.{ℕ, Bool, Option, List, Text}

pub data NotificationState : Type 0 where
  done blocked : NotificationState

pub data CompletionSource : Type 0 where
  poll rpc : CompletionSource

-- `ObservedState` together with the two values that `NotificationObserved` adds to it.
pub data Observed : Type 0 where
  done idle blocked rpc group : Observed

pub data ReportKind : Type 0 where
  final sample : ReportKind

pub record ArmedNotification : Type 0 where
  pub name : Text
  pub pane_id : Text
  pub summary_source : Text
  pub completion_source : Option CompletionSource
  pub accept_results_since : Option ℕ
  pub expected_arm_id : Option Text

pub record WatchedNotification : Type 0 where
  pub armed : ArmedNotification
  pub open armed use *
  pub completion_id : Option Text
  pub state : NotificationState
  pub observed : Observed
  pub pane_tail : Text

pub record ExternalNotification : Type 0 where
  pub completion_id : Option Text
  pub name : Text
  pub pane_id : Text
  pub summary_source : Text
  pub report_kind : ReportKind
  pub state : NotificationState
  pub final_message : Text

pub record ExternalResult : Type 0 where
  pub status : NotificationState
  pub final_message : Text
  pub sent_at : ℕ
  pub completion_id : Option Text
  pub arm_id : Option Text

-- The controller is a number that no other slot has: it is the identity of the slot.
pub record WatcherSlot : Type 0 where
  pub key : Text
  pub name : Text
  pub pane_id : Text
  pub summary_source : Text
  pub armed_at : ℕ
  pub accepted_arm_ids : List Text
  pub controller : ℕ

pub record PendingArmBatch : Type 0 where
  pub id : ℕ
  pub keys : List Text
  pub timeout : ℕ

pub record NotificationDelivery : Type 0 where
  pub report_kind : ReportKind
  pub completion_id : Text
  pub report_text : Text
  pub key : Text
  pub name : Text
  pub pane_id : Text
  pub state : NotificationState
  pub observed : Observed
  pub content_block : Text
  pub individual_content : Text

pub record CompletionGroup : Type 0 where
  pub id : ℕ
  pub member_keys : List Text
  pub completed : List (Text × NotificationDelivery)
  pub timeout : Option ℕ
  pub is_straggler : Bool

-- What the watching fiber of a slot ends with.
pub data WatchCompletion : Type 0 where
  notification : WatchedNotification → WatchCompletion
  result : Text → ExternalResult → WatchCompletion

-- The `details` of a message that `pi.sendMessage` gets.
pub data Details : Type 0 where
  single : (name pane_id : Text) → NotificationState → Observed → Details
  grouped :
      (names pane_ids : List Text) → NotificationState → (partial : Bool) → (pending : ℕ) → Details

pub record Message : Type 0 where
  pub content : Text
  pub details : Details

-- What `truncateTail` of the pi package answers.
pub record Truncation : Type 0 where
  pub content : Text
  pub truncated : Bool
  pub output_lines : ℕ
  pub total_lines : ℕ
  pub output_bytes : ℕ
  pub total_bytes : ℕ

-- The code outside the repository that a report's text goes through: two constants and two
-- functions of the pi package, the runtime's decimal notation of a number, and its
-- `stripVTControlCharacters`.
pub record Env : Type 0 where
  pub max_lines : ℕ
  pub max_bytes : ℕ
  pub truncate_tail : Text → (max_lines max_bytes : ℕ) → Truncation
  pub format_size : ℕ → Text
  pub show : ℕ → Text
  pub strip_vt_control : Text → Text
