-- ===== src/Relay/Data.antt =====
-- The browser-safe data of web-herdr-relay/normalization.ts.
use pi_dotfiles.Prelude.{ℕ, Bool, Option, List, Text}

pub data MimeType : Type 0 where
  gif jpeg png webp : MimeType

pub record ImageMetadata : Type 0 where
  pub content_hash : Option Text
  pub mime_type : MimeType

pub data Role : Type 0 where
  user assistant tool system : Role

-- `compaction` holds its `tokensBefore`.
pub record RelayMessage : Type 0 where
  pub compaction : Option ℕ
  pub error_message : Option Text
  pub id : Text
  pub images : Option (List ImageMetadata)
  pub is_error : Option Bool
  pub role : Role
  pub text : Text
  pub thinking : Option Text
  pub timestamp : ℕ
  pub tool_call_id : Option Text

pub data TruncatedBy : Type 0 where
  bytes lines : TruncatedBy

pub record ToolTruncation : Type 0 where
  pub first_line_exceeds_limit : Bool
  pub max_bytes : ℕ
  pub max_lines : ℕ
  pub output_bytes : ℕ
  pub output_lines : ℕ
  pub total_bytes : ℕ
  pub total_lines : ℕ
  pub truncated_by : TruncatedBy

pub data ReadResult : Type 0 where
  image : MimeType → (relay_text_truncated : Bool) → ReadResult
  text : (relay_text_truncated : Bool) → Option ToolTruncation → ReadResult

pub data SearchResult : Type 0 where
  find :
      (relay_text_truncated : Bool)
      → (result_limit_reached : Option ℕ) → Option ToolTruncation
      → SearchResult
  grep :
      (lines_truncated : Bool)
      → (match_limit_reached : Option ℕ) → (relay_text_truncated : Bool) → Option ToolTruncation
      → SearchResult

pub data WriteState : Type 0 where
  pending available unavailable : WriteState

pub record WriteResult : Type 0 where
  pub path : Text
  pub size : ℕ
  pub state : WriteState

pub data ToolStatus : Type 0 where
  running complete : ToolStatus

pub record EditDiff : Type 0 where
  pub text : Text
  pub truncated : Bool

pub record RelayTool : Type 0 where
  pub detail : Option Text
  pub detail_truncated : Option Bool
  pub edit_diff : Option EditDiff
  pub id : Text
  pub input : Option Text
  pub is_error : Option Bool
  pub name : Text
  pub read_result : Option ReadResult
  pub search_result : Option SearchResult
  pub status : ToolStatus
  pub timestamp : ℕ
  pub write_result : Option WriteResult

pub record RelaySnapshot : Type 0 where
  pub messages : List RelayMessage
  pub tools : List RelayTool
