-- ===== src/SmartContext/Session.antt =====
-- The entries of a session branch, as far as history.ts and checkpoint.ts read them.
use pi_dotfiles.Prelude.{ℕ, Bool, Option, List, Text}

-- A part of a message's content; the arguments of a tool call are their JSON text.
pub data Part : Type 0 where
  text : Text → Part
  image : Part
  tool_call : (name arguments : Text) → Part
  thinking : Part

pub data Content : Type 0 where
  plain : Text → Content
  parts : List Part → Content

pub record BashExecution : Type 0 where
  pub command : Text
  pub output : Text
  pub exclude_from_context : Bool
  pub exit_code : Option ℕ
  pub cancelled : Bool
  pub truncated : Bool

pub data Message : Type 0 where
  bash_execution : BashExecution → Message
  compaction_summary branch_summary : (summary : Text) → Message
  user : Content → Message
  assistant : Content → (stop_reason : Text) → Message
  tool_result : Content → (tool_name tool_call_id : Text) → (is_error : Bool) → Message
  custom : Content → Message

-- The fields of a checkpoint's data.
pub record CheckpointData : Type 0 where
  pub version : ℕ
  pub window_id : Text
  pub anchor_id : Text
  pub text : Text

-- The data of a custom entry is `none` where it does not have a checkpoint's fields.
pub data Body : Type 0 where
  compaction branch_summary : (summary : Text) → Body
  custom_message : Content → Body
  message : Message → Body
  custom : (custom_type : Text) → Option CheckpointData → Body
  other : Body

pub record SessionEntry : Type 0 where
  pub id : Text
  pub body : Body
