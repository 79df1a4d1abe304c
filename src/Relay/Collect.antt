-- ===== src/Relay/Collect.antt =====
-- What web-herdr-relay/normalization.ts collects from the entries of a branch.
use pi_dotfiles.Prelude.{
  ℕ, Bool, not, ◌&&◌, ◌||◌, if◌then◌else◌, Option, none, some, List, [], ◌∷◌, ◌++◌, Text, codes,
  is_empty, text_discrete,
}
use pi_dotfiles.Prelude.Dict
use pi_dotfiles.Prelude.Json.{Value}
use pi_dotfiles.Relay.Data.{Role, RelayMessage, WriteState, WriteResult, ToolStatus, RelayTool}
use pi_dotfiles.Relay.Text.{maximum_relay_text_length, bounded_text, bounded_identifier}
use pi_dotfiles.Relay.Extract.{
  Runtime, property, is_string, is_true, text_of, value_or_null, number_or, extract_text,
  extract_tool_detail, extract_edit_diff, extract_read_result, extract_search_result,
  nonnegative_safe_integer,
}
use pi_dotfiles.Relay.Message.{normalize_message, normalize_tool_calls}

abbrev pub has_type : Text → Value → Bool
has_type t v = is_string (property (codes "type") v) t

abbrev pub shown : Value → Bool
shown v = is_true (property (codes "display") v)

abbrev entry_id : Value → Text
entry_id v = elim (text_of (property (codes "id") v)) [ none ↦ [] | some id ↦ id ]

system_message : (id : Text) → (text : Text) → (timestamp : ℕ) → Option ℕ → RelayMessage
system_message id text timestamp compaction = record {
  compaction = compaction;
  error_message = none;
  id = id;
  images = none;
  is_error = none;
  role = Role.system;
  text = text;
  thinking = none;
  timestamp = timestamp;
  tool_call_id = none;
}

abbrev is_visible : RelayMessage → Bool
is_visible m =
    not (is_empty m.text)
    || Dict.is_some m.thinking
    || Dict.is_some m.images
    || Dict.is_some m.error_message

-- The messages and the tools that the loop over the entries has collected.
pub record Collected : Type 0 where
  pub messages : List RelayMessage
  pub tools : List (Text × RelayTool)

abbrev push : RelayMessage → Collected → Collected
push m c = record c { messages = c.messages ++ (m ∷ []) }

abbrev push_visible : Option RelayMessage → List RelayMessage → List RelayMessage
push_visible none messages = messages
push_visible (some m) messages = if is_visible m then messages ++ (m ∷ []) else messages

set_tools : List RelayTool → List (Text × RelayTool) → List (Text × RelayTool)
set_tools [] tools = tools
set_tools (t ∷ ts) tools = set_tools ts (Dict.set text_discrete t.id t tools)

module _ (runtime : Runtime) (fallback : ℕ) (session_paths : List Text) where
  unfoldable pub timestamp_for_entry : Value → ℕ
  timestamp_for_entry v =
      let stamp = property (codes "timestamp") v in
      elim (text_of stamp) [
        | none ↦ number_or stamp fallback
        | some t ↦ elim (runtime.date_parse t) [
          | none ↦ number_or stamp fallback
          | some parsed ↦ parsed
        ]
      ]

  completed_name : Value → Option RelayTool → Text
  completed_name persisted (some t) = t.name
  completed_name persisted none =
      bounded_text
        (elim (property (codes "toolName") persisted) [
          | none ↦ codes "tool"
          | some v ↦ elim v [ Value.null ↦ codes "tool" | other ↦ runtime.to_string other ]
        ])
        128 []

  -- The tool of a result, from the tool of its call where there is one.
  completed_tool : (tool_id : Text) → Value → (timestamp : ℕ) → Option RelayTool → RelayTool
  unfolding completed_name
  completed_tool tool_id persisted timestamp current =
      let content = property (codes "content") persisted in
      let details = property (codes "details") persisted in
      let failed = is_true (property (codes "isError") persisted) in
      let name = completed_name persisted current in
      let detail = extract_tool_detail content session_paths in
      let settled = λ (w : WriteResult). record w {
        state = if failed then WriteState.unavailable else WriteState.available;
      } in
      record {
        detail = some detail.text;
        detail_truncated = some detail.truncated;
        edit_diff = extract_edit_diff name details session_paths;
        id = tool_id;
        input = elim current [ none ↦ none | some t ↦ t.input ];
        is_error = some failed;
        name = name;
        read_result = extract_read_result name content details session_paths;
        search_result = extract_search_result name content details session_paths;
        status = ToolStatus.complete;
        timestamp = timestamp;
        write_result = elim current [
          | none ↦ none
          | some t ↦ elim t.write_result [ none ↦ none | some w ↦ some (settled w) ]
        ];
      }

  -- What a result of a tool changes in the tools.
  complete_tool : Value → (timestamp : ℕ) → List (Text × RelayTool) → List (Text × RelayTool)
  unfolding completed_tool
  complete_tool persisted timestamp tools =
      elim (text_of (property (codes "toolCallId") persisted)) [
        | none ↦ tools
        | some call_id ↦
            let tool_id = bounded_identifier call_id (codes "tool") in
            let current = Dict.get text_discrete tool_id tools in
            let tool = completed_tool tool_id persisted timestamp current in
            if is_string (property (codes "role") persisted) (codes "toolResult")
            then Dict.set text_discrete tool_id tool tools
            else tools
      ]

  collect_message : Value → (timestamp : ℕ) → Collected → Collected
  unfolding set_tools complete_tool
  collect_message v timestamp c =
      let message = value_or_null (property (codes "message") v) in
      let id = bounded_identifier (entry_id v) (codes "entry") in
      record {
        messages =
            push_visible (normalize_message runtime id message timestamp session_paths) c.messages;
        tools =
            complete_tool message timestamp
              (set_tools (normalize_tool_calls runtime message timestamp session_paths) c.tools);
      }

  collect_custom : Value → (timestamp : ℕ) → Collected → Collected
  unfolding system_message
  collect_custom v timestamp c =
      let text = extract_text (property (codes "content") v) session_paths in
      if is_empty text
      then c
      else push
          (system_message (bounded_identifier (entry_id v) (codes "custom")) text timestamp none) c

  summary_message : (prefix summary : Text) → Value → (timestamp : ℕ) → Option ℕ → RelayMessage
  unfolding system_message
  summary_message prefix summary v timestamp compaction =
      system_message (bounded_identifier (entry_id v) prefix)
        (bounded_text summary maximum_relay_text_length session_paths) timestamp compaction

  -- The body of the loop over the retained entries.
  unfoldable pub collect : Value → Collected → Collected
  unfolding collect_message collect_custom summary_message timestamp_for_entry
  collect v c =
      let timestamp = timestamp_for_entry v in
      let tokens = nonnegative_safe_integer (property (codes "tokensBefore") v) in
      if has_type (codes "message") v
      then collect_message v timestamp c
      else if has_type (codes "custom_message") v && shown v
      then collect_custom v timestamp c
      else elim (text_of (property (codes "summary") v)) [
        | none ↦ c
        | some summary ↦
            if has_type (codes "compaction") v
            then push (summary_message (codes "compaction") summary v timestamp tokens) c
            else if has_type (codes "branch_summary") v
            then push (summary_message (codes "branch") summary v timestamp none) c
            else c
      ]

  unfoldable pub collect_all : List Value → Collected → Collected
  unfolding collect
  collect_all [] c = c
  collect_all (v ∷ vs) c = collect_all vs (collect v c)
