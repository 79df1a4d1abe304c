-- ===== src/Relay/Extract.antt =====
-- What web-herdr-relay/normalization.ts reads out of the content and the details of a message.
use pi_dotfiles.Prelude.{
  ℕ, ◌+◌, Bool, true, false, leb, ltb, ◌||◌, if◌then◌else◌, Option, none, some, List, [], ◌∷◌, Text,
  codes, length, map, concat, is_empty, includes, text_discrete, pick,
}
use pi_dotfiles.Prelude.Json.{Value, items_of, as_record, lookup}
use pi_dotfiles.Prelude.Regex.{is_upper}
use pi_dotfiles.Relay.Data.{
  MimeType, TruncatedBy, ToolTruncation, ReadResult, SearchResult, WriteState, WriteResult,
  EditDiff,
}
use pi_dotfiles.Relay.Text.{maximum_relay_text_length, Bounded, bound_text, bounded_text}

-- What the code takes from the runtime and its libraries: `Date.parse`, `JSON.stringify` with the
-- indentation 2 (none where it throws), the UTF-8 length of a text, the SHA-256 of base64 data, and
-- `stripVTControlCharacters`, `String`; and the five replacements that take credentials out of an
-- error message, which are not modelled. A date before 1970 is none.
pub record Runtime : Type 0 where
  pub date_parse : Text → Option ℕ
  pub stringify : Value → Option Text
  pub byte_length : Text → ℕ
  pub sha256 : Text → Text
  pub strip_vt_control : Text → Text
  pub redact_credentials : Text → Text
  pub to_string : Value → Text

abbrev pub Fields : Type 0
Fields = List (Text × Value)

-- `asRecord(value)?.key`
abbrev pub property : Text → Value → Option Value
property key v = elim (as_record v) [ none ↦ none | some fs ↦ lookup key fs ]

abbrev pub is_string : Option Value → Text → Bool
is_string (some (Value.string t)) u = pick (text_discrete t u) true false
is_string _ u = false

abbrev pub is_true : Option Value → Bool
is_true (some (Value.boolean b)) = b
is_true _ = false

abbrev pub text_of : Option Value → Option Text
text_of (some (Value.string t)) = some t
text_of _ = none

-- `Array.isArray(value)`
abbrev pub array_of : Option Value → Option (List Value)
array_of (some (Value.array vs)) = some (items_of vs)
array_of _ = none

abbrev pub value_or_null : Option Value → Value
value_or_null none = Value.null
value_or_null (some v) = v

abbrev pub max_safe_integer : ℕ
max_safe_integer = 9007199254740991

unfoldable pub nonnegative_safe_integer : Option Value → Option ℕ
nonnegative_safe_integer (some (Value.number n)) = if leb n max_safe_integer then some n else none
nonnegative_safe_integer _ = none

unfoldable pub number_or : Option Value → ℕ → ℕ
unfolding nonnegative_safe_integer
number_or v fallback = elim (nonnegative_safe_integer v) [ none ↦ fallback | some n ↦ n ]

-- `toolName.toLocaleLowerCase("en-US") === name`, for a name of ASCII letters without `k`.
abbrev pub is_tool : Text → Text → Bool
is_tool tool_name name =
    pick (text_discrete (map (λ c. if is_upper c then c + 32 else c) tool_name) name) true false

-- The texts of the blocks of one type.
block_texts : (kind key : Text) → List Value → List Text
block_texts kind key [] = []
block_texts kind key (v ∷ vs) =
    let others = block_texts kind key vs in
    if is_string (property (codes "type") v) kind
    then elim (text_of (property key v)) [ none ↦ others | some t ↦ t ∷ others ]
    else others

unfoldable pub extract_text_blocks : Option Value → Text
unfolding block_texts
extract_text_blocks (some (Value.string t)) = t
extract_text_blocks (some (Value.array vs)) =
    concat (block_texts (codes "text") (codes "text") (items_of vs))
extract_text_blocks _ = []

unfoldable pub extract_tool_detail : Option Value → List Text → Bounded
unfolding extract_text_blocks
extract_tool_detail v paths = bound_text (extract_text_blocks v) maximum_relay_text_length paths

unfoldable pub extract_text : Option Value → List Text → Text
extract_text v paths = (extract_tool_detail v paths).text

unfoldable pub extract_thinking : Option Value → List Text → Option Text
unfolding block_texts
extract_thinking v paths = elim (array_of v) [
  | none ↦ none
  | some vs ↦
      let thinking =
        bounded_text (concat (block_texts (codes "thinking") (codes "thinking") vs))
          maximum_relay_text_length paths in
      if is_empty thinking then none else some thinking
]

unfoldable pub extract_edit_diff : Text → Option Value → List Text → Option EditDiff
extract_edit_diff tool_name details paths =
    if is_tool tool_name (codes "edit")
    then elim (text_of (property (codes "diff") (value_or_null details))) [
      | none ↦ none
      | some diff ↦
          let bounded = bound_text diff maximum_relay_text_length paths in
          some (record { text = bounded.text; truncated = bounded.truncated })
    ]
    else none

truncated_by : Option Value → Option TruncatedBy
truncated_by v =
    if is_string v (codes "bytes")
    then some TruncatedBy.bytes
    else if is_string v (codes "lines")
    then some TruncatedBy.lines
    else none

abbrev boolean_of : Option Value → Option Bool
boolean_of (some (Value.boolean b)) = some b
boolean_of _ = none

infixl 5 ◌>>=◌
abbrev ◌>>=◌ {ℓ κ} : {A : Type ℓ} {B : Type κ} → Option A → (A → Option B) → Option B
none >>= f = none
some a >>= f = f a

unfoldable pub extract_truncation : Option Value → Option ToolTruncation
unfolding truncated_by nonnegative_safe_integer
extract_truncation details =
    let t = value_or_null (property (codes "truncation") (value_or_null details)) in
    let count = λ (key : Text). nonnegative_safe_integer (property key t) in
    if is_true (property (codes "truncated") t)
    then (do
      by ← truncated_by (property (codes "truncatedBy") t)
      first ← boolean_of (property (codes "firstLineExceedsLimit") t)
      max_bytes ← count (codes "maxBytes")
      max_lines ← count (codes "maxLines")
      output_bytes ← count (codes "outputBytes")
      output_lines ← count (codes "outputLines")
      total_bytes ← count (codes "totalBytes")
      total_lines ← count (codes "totalLines")
      some (record {
        first_line_exceeds_limit = first;
        max_bytes = max_bytes;
        max_lines = max_lines;
        output_bytes = output_bytes;
        output_lines = output_lines;
        total_bytes = total_bytes;
        total_lines = total_lines;
        truncated_by = by;
      }))
    else none

unfoldable pub image_mime_type : Option Value → Option MimeType
image_mime_type v =
    if is_string v (codes "image/gif")
    then some MimeType.gif
    else if is_string v (codes "image/jpeg")
    then some MimeType.jpeg
    else if is_string v (codes "image/png")
    then some MimeType.png
    else if is_string v (codes "image/webp")
    then some MimeType.webp
    else none

-- The type of a block that is an image the browser can show.
abbrev pub image_of : Value → Option MimeType
image_of v =
    if is_string (property (codes "type") v) (codes "image")
    then image_mime_type (property (codes "mimeType") v)
    else none

first_image_in : List Value → Option MimeType
first_image_in [] = none
first_image_in (v ∷ vs) = elim (image_of v) [ some m ↦ some m | none ↦ first_image_in vs ]

unfoldable pub first_image_mime_type : Option Value → Option MimeType
unfolding first_image_in
first_image_mime_type v = elim (array_of v) [ none ↦ none | some vs ↦ first_image_in vs ]

unfoldable pub extract_read_result :
    Text → (content details : Option Value) → List Text → Option ReadResult
extract_read_result tool_name content details paths =
    if is_tool tool_name (codes "read")
    then (let bounded = bound_text (extract_text_blocks content) maximum_relay_text_length paths in
        elim (first_image_mime_type content) [
          | some m ↦ some (ReadResult.image m bounded.truncated)
          | none ↦ some (ReadResult.text bounded.truncated (extract_truncation details))
        ])
    else none

unfoldable pub extract_search_result :
    Text → (content details : Option Value) → List Text → Option SearchResult
extract_search_result tool_name content details paths =
    let bounded = bound_text (extract_text_blocks content) maximum_relay_text_length paths in
    let d = value_or_null details in
    if is_tool tool_name (codes "find")
    then some (
        SearchResult.find bounded.truncated
          (nonnegative_safe_integer (property (codes "resultLimitReached") d))
          (extract_truncation details))
    else if is_tool tool_name (codes "grep")
    then some (
        SearchResult.grep (is_true (property (codes "linesTruncated") d))
          (nonnegative_safe_integer (property (codes "matchLimitReached") d)) bounded.truncated
          (extract_truncation details))
    else none

module _ (runtime : Runtime) where
  unfoldable pub extract_write_result :
      Text → (input : Value) → WriteState → List Text → Option WriteResult
  extract_write_result tool_name input state paths =
      if is_tool tool_name (codes "write")
      then (do
        path ← text_of (property (codes "path") input)
        content ← text_of (property (codes "content") input)
        (if is_empty path || ltb 4096 (length path) || includes (0 ∷ []) path
            then none
            else some (record {
              path = bounded_text path 4096 paths;
              size = runtime.byte_length content;
              state = state;
            })))
      else none

  unfoldable pub serialize_tool_input : Value → List Text → Option Text
  serialize_tool_input input paths = elim (runtime.stringify input) [
    | none ↦ none
    | some t ↦ some (bounded_text t maximum_relay_text_length paths)
  ]
