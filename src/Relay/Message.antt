-- ===== src/Relay/Message.antt =====
-- How web-herdr-relay/normalization.ts reads one message of a session.
use pi_dotfiles.Prelude.{
  ℕ, zero, suc, Bool, true, false, not, leb, ltb, ◌==◌, ◌&&◌, ◌||◌, if◌then◌else◌, Option, none,
  some, List, [], ◌∷◌, Text, codes, length, take, is_empty, trim,
}
use pi_dotfiles.Prelude.Json.{Value}
use pi_dotfiles.Prelude.Regex.{is_upper, is_lower, is_digit}
use pi_dotfiles.Relay.Data.{ImageMetadata, Role, RelayMessage, WriteState, ToolStatus, RelayTool}
use pi_dotfiles.Relay.Text.{maximum_relay_text_length, bounded_text, bounded_identifier}
use pi_dotfiles.Relay.Extract.{
  Runtime, property, is_string, is_true, is_tool, text_of, array_of, value_or_null, number_or,
  extract_text_blocks, extract_text, extract_thinking, extract_write_result, serialize_tool_input,
  image_of,
}
use pi_dotfiles.Relay.Collapse.{collapse_uploaded_files}

abbrev maximum_relay_image_base64_length : ℕ
maximum_relay_image_base64_length = 6990508

abbrev is_base64 : ℕ → Bool
is_base64 c = is_upper c || is_lower c || is_digit c || (c == b'+') || (c == b'/')

-- `/^(?:[A-Za-z0-9+/]{4})*(?:[A-Za-z0-9+/]{2}==|[A-Za-z0-9+/]{3}=)?$/`
is_base64_text : Text → Bool
is_base64_text [] = true
is_base64_text (a ∷ b ∷ c ∷ d ∷ rest) =
    let more = is_base64_text rest in
    is_base64 a
    && is_base64 b
    && ((is_base64 c && is_base64 d && more)
        || (is_empty rest && (d == b'=') && (is_base64 c || (c == b'='))))
is_base64_text _ = false

abbrev string_or_undefined : Option Value → Option Text
string_or_undefined v = elim (text_of v) [
  | none ↦ none
  | some [] ↦ none
  | some (x ∷ xs) ↦ some (x ∷ xs)
]

-- The second argument of `createMessage`'s options, all of them optional.
pub record Extra : Type 0 where
  pub error_message : Option Text
  pub images : Option (List ImageMetadata)
  pub is_error : Option Bool
  pub thinking : Option Text
  pub tool_call_id : Option Text

abbrev no_extra : Extra
no_extra = record {
  error_message = none;
  images = none;
  is_error = none;
  thinking = none;
  tool_call_id = none;
}

unfoldable pub create_message :
    (id : Text) → Role → (text : Text) → (timestamp : ℕ) → Extra → RelayMessage
create_message id role text timestamp extra = record {
  compaction = none;
  error_message = extra.error_message;
  id = bounded_identifier id (codes "message");
  images = extra.images;
  is_error = extra.is_error;
  role = role;
  text = text;
  thinking = extra.thinking;
  timestamp = timestamp;
  tool_call_id = elim extra.tool_call_id [
    | none ↦ none
    | some t ↦ some (bounded_identifier t (codes "tool"))
  ];
}

abbrev no_response : Text
no_response = codes "Pi could not complete the response."

-- `text.replace(/[\uD800-\uDBFF]$/, "")`
drop_open_pair : Text → Text
drop_open_pair [] = []
drop_open_pair (x ∷ []) = if leb 0xd800 x && leb x 0xdbff then [] else x ∷ []
drop_open_pair (x ∷ y ∷ text) = x ∷ drop_open_pair (y ∷ text)

module _ (runtime : Runtime) where
  image_content_hash : Option Value → Option Text
  unfolding is_base64_text
  image_content_hash v = elim (text_of v) [
    | none ↦ none
    | some encoded ↦
        if ltb (length encoded) 4
          || ltb maximum_relay_image_base64_length (length encoded)
          || not (is_base64_text encoded)
        then none
        else some (runtime.sha256 encoded)
  ]

  -- At most `room` images of the blocks.
  images_of : (room : ℕ) → List Value → List ImageMetadata
  unfolding image_content_hash
  images_of zero vs = []
  images_of (suc n) [] = []
  images_of (suc n) (v ∷ vs) = elim (image_of v) [
    | none ↦ images_of (suc n) vs
    | some m ↦
        record { content_hash = image_content_hash (property (codes "data") v); mime_type = m }
        ∷ images_of n vs
  ]

  unfoldable pub extract_image_metadata : Option Value → List ImageMetadata
  unfolding images_of
  extract_image_metadata v = elim (array_of v) [ none ↦ [] | some vs ↦ images_of 4 vs ]

  assistant_error_message : Option Value → List Text → Text
  unfolding drop_open_pair
  assistant_error_message v paths = elim (text_of v) [
    | none ↦ no_response
    | some value ↦
        let sanitized = runtime.redact_credentials (runtime.strip_vt_control value) in
        let bounded = bounded_text sanitized maximum_relay_text_length paths in
        let text = trim (drop_open_pair (take maximum_relay_text_length bounded)) in
        if is_empty text then no_response else text
  ]

  unfoldable pub normalize_message :
      (id : Text) → Value → (fallback : ℕ) → List Text → Option RelayMessage
  unfolding assistant_error_message
  normalize_message id message fallback paths =
      let field = λ (key : Text). property key message in
      let role = field (codes "role") in
      let content = field (codes "content") in
      let timestamp = number_or (field (codes "timestamp")) fallback in
      let images = extract_image_metadata content in
      let failed = is_string (field (codes "stopReason")) (codes "error") in
      if is_string role (codes "user")
      then some (
          create_message id Role.user
            (bounded_text (collapse_uploaded_files (extract_text_blocks content))
              maximum_relay_text_length paths)
            timestamp (record no_extra { images = if is_empty images then none else some images }))
      else if is_string role (codes "assistant")
      then some (
          create_message id Role.assistant (extract_text content paths) timestamp (record no_extra {
            thinking = extract_thinking content paths;
            is_error = if failed then some true else none;
            error_message =
                if failed
                then some (assistant_error_message (field (codes "errorMessage")) paths)
                else none;
          }))
      else if is_string role (codes "toolResult")
      then some (
          create_message id Role.tool (extract_text content paths) timestamp (record no_extra {
            is_error = some (is_true (field (codes "isError")));
            tool_call_id = string_or_undefined (field (codes "toolCallId"));
          }))
      else if is_string role (codes "custom") && is_true (field (codes "display"))
      then some (create_message id Role.system (extract_text content paths) timestamp no_extra)
      else none

  tool_of : (timestamp : ℕ) → List Text → Value → Option RelayTool
  tool_of timestamp paths call = elim (text_of (property (codes "id") call)) [
    | none ↦ none
    | some id ↦ elim (text_of (property (codes "name") call)) [
      | none ↦ none
      | some name ↦
          let input = property (codes "arguments") call in
          if is_string (property (codes "type") call) (codes "toolCall")
          then some (record {
            detail = none;
            detail_truncated = none;
            edit_diff = none;
            id = bounded_identifier id (codes "tool");
            input =
                if is_tool name (codes "write")
                then none
                else elim input [ none ↦ none | some v ↦ serialize_tool_input runtime v paths ];
            is_error = none;
            name = bounded_text name 128 [];
            read_result = none;
            search_result = none;
            status = ToolStatus.running;
            timestamp = timestamp;
            write_result =
                extract_write_result runtime name (value_or_null input) WriteState.pending paths;
          })
          else none
    ]
  ]

  tools_of : (timestamp : ℕ) → List Text → List Value → List RelayTool
  unfolding tool_of
  tools_of timestamp paths [] = []
  tools_of timestamp paths (v ∷ vs) =
      let others = tools_of timestamp paths vs in
      elim (tool_of timestamp paths v) [ none ↦ others | some t ↦ t ∷ others ]

  unfoldable pub normalize_tool_calls : Value → (fallback : ℕ) → List Text → List RelayTool
  unfolding tools_of
  normalize_tool_calls message fallback paths =
      let timestamp = number_or (property (codes "timestamp") message) fallback in
      elim (array_of (property (codes "content") message)) [
        | none ↦ []
        | some blocks ↦ tools_of timestamp paths blocks
      ]
