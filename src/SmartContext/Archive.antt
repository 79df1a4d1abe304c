-- ===== src/SmartContext/Archive.antt =====
-- `historyItems` of smart-context/history.ts.
use pi_dotfiles.Prelude.{
  ℕ, Bool, if◌then◌else◌, Option, none, some, List, [], ◌∷◌, ◌++◌, Text, codes, map, join,
}
use pi_dotfiles.SmartContext.Session.{Part, Content, BashExecution, Message, Body, SessionEntry}

pub record HistoryItem : Type 0 where
  pub id : Text
  pub window_id : Text
  pub role : Text
  pub text : Text
  pub tool_name : Option Text
  pub tool_call_id : Option Text
  pub is_error : Option Bool
  pub exit_code : Option ℕ
  pub cancelled : Option Bool
  pub truncated : Option Bool
  pub stop_reason : Option Text

abbrev pub initial_window : Text
initial_window = codes "initial"

abbrev plain_item : (id window role text : Text) → HistoryItem
plain_item id window role text = record {
  id = id;
  window_id = window;
  role = role;
  text = text;
  tool_name = none;
  tool_call_id = none;
  is_error = none;
  exit_code = none;
  cancelled = none;
  truncated = none;
  stop_reason = none;
}

abbrev newline : Text
newline = 10 ∷ []

-- The text of a custom message's part.
custom_part : Part → Text
custom_part (Part.text t) = t
custom_part _ = codes "[image]"

custom_text : Content → Text
unfolding custom_part join
custom_text (Content.plain t) = t
custom_text (Content.parts ps) = join newline (map custom_part ps)

part_texts : List Part → List Text
part_texts [] = []
part_texts (Part.text t ∷ ps) = t ∷ part_texts ps
part_texts (Part.image ∷ ps) =
    codes "[image: inspect the original source again if needed]" ∷ part_texts ps
part_texts (Part.tool_call name arguments ∷ ps) =
    (codes "Tool " ++ (name ++ (codes ": " ++ arguments))) ∷ part_texts ps
part_texts (Part.thinking ∷ ps) = part_texts ps

message_text : Content → Text
unfolding part_texts join
message_text (Content.plain t) = t
message_text (Content.parts ps) = join newline (part_texts ps)

bash_items : (id window : Text) → BashExecution → List HistoryItem
bash_items id window b =
    if b.exclude_from_context
    then []
    else record (plain_item id window (codes "bash") (b.command ++ (newline ++ b.output))) {
      exit_code = b.exit_code;
      cancelled = some b.cancelled;
      truncated = some b.truncated;
    }
      ∷ []

message_items : (id window : Text) → Message → List HistoryItem
unfolding bash_items message_text
message_items id window (Message.bash_execution b) = bash_items id window b
message_items id window (Message.compaction_summary s) =
    plain_item id window (codes "compactionSummary") s ∷ []
message_items id window (Message.branch_summary s) =
    plain_item id window (codes "branchSummary") s ∷ []
message_items id window (Message.user content) =
    plain_item id window (codes "user") (message_text content) ∷ []
message_items id window (Message.assistant content stop_reason) =
    record (plain_item id window (codes "assistant") (message_text content)) {
      stop_reason = some stop_reason;
    }
    ∷ []
message_items id window (Message.tool_result content tool_name tool_call_id is_error) =
    record (plain_item id window (codes "toolResult") (message_text content)) {
      tool_name = some tool_name;
      tool_call_id = some tool_call_id;
      is_error = some is_error;
    }
    ∷ []
message_items id window (Message.custom content) =
    plain_item id window (codes "custom") (message_text content) ∷ []

-- The window after an entry: a compaction opens one of its own.
abbrev pub next_window : Text → SessionEntry → Text
next_window window e = elim e.body [ Body.compaction s ↦ e.id | _ ↦ window ]

unfoldable pub entry_items : Text → SessionEntry → List HistoryItem
unfolding message_items custom_text
entry_items window e = elim e.body [
  | Body.compaction s ↦ plain_item e.id e.id (codes "checkpoint") s ∷ []
  | Body.branch_summary s ↦ plain_item e.id window (codes "branchSummary") s ∷ []
  | Body.custom_message content ↦ plain_item e.id window (codes "custom") (custom_text content) ∷ []
  | Body.message m ↦ message_items e.id window m
  | _ ↦ []
]

items_from : Text → List SessionEntry → List HistoryItem
unfolding entry_items
items_from window [] = []
items_from window (e ∷ es) = entry_items window e ++ items_from (next_window window e) es

unfoldable pub history_items : List SessionEntry → List HistoryItem
unfolding items_from
history_items branch = items_from initial_window branch
