-- ===== src/Sanitizer.antt =====
-- agent/extensions/tool-result-sanitizer.ts: the guard against failed tool results without content.
pub mod Safe
mod Tests
use pi_dotfiles.Prelude.{
  ℕ, suc, ◌≤◌, ◌≡◌, ◌≢◌, refl, ap, Bool, true, false, not, ◌&&◌, ◌||◌, if◌then◌else◌, Option, none,
  some, List, [], ◌∷◌, ◌++◌, Text, codes, All, arith, some_of, length, is_empty, trim, trim_start,
  trim_end, is_space, Bool-cases, Option-cases, inl, inr,
}

pub data Block : Type 0 where
  text : Text → Block
  image : Block

pub record ToolResult : Type 0 where
  pub tool_call_id : Text
  pub tool_name : Text
  pub content : List Block
  pub is_error : Bool

-- A message of the context. What the handler does not read of the others is left open.
pub data ContextMessage {ℓ} (Other : Type ℓ) : Type ℓ where
  tool_result : ToolResult → ContextMessage Other
  other : Other → ContextMessage Other

abbrev pub shows : Block → Bool
shows (Block.text t) = not (is_empty (trim t))
shows Block.image = true

unfoldable pub has_non_empty_content : List Block → Bool
has_non_empty_content content = some_of shows content

unfoldable pub fallback_error_content : ToolResult → Block
fallback_error_content r = Block.text (
    codes "Tool \""
    ++ (r.tool_name
        ++ (codes "\" failed without producing error output (toolCallId: "
            ++ (r.tool_call_id ++ codes ")."))))

unfoldable pub sanitize_error_content : ToolResult → Option (List Block)
unfolding has_non_empty_content
sanitize_error_content r =
    if not r.is_error || has_non_empty_content r.content
    then none
    else some (fallback_error_content r ∷ [])

module _ {ℓ} {Other : Type ℓ} where
  -- The message with the sanitized content, if there is one, and whether it changed.
  abbrev pub with_content : ToolResult → Option (List Block) → ContextMessage Other × Bool
  with_content r none = (ContextMessage.tool_result r, false)
  with_content r (some content) =
      (ContextMessage.tool_result (record r { content = content }), true)

  unfoldable pub sanitize_message : ContextMessage Other → ContextMessage Other × Bool
  sanitize_message (ContextMessage.tool_result r) = with_content r (sanitize_error_content r)
  sanitize_message (ContextMessage.other o) = (ContextMessage.other o, false)

  unfoldable pub sanitize_all : List (ContextMessage Other) → List (ContextMessage Other) × Bool
  unfolding sanitize_message
  sanitize_all [] = ([], false)
  sanitize_all (m ∷ ms) =
      let (m', here) = sanitize_message m in
      let (ms', later) = sanitize_all ms in (m' ∷ ms', here || later)

  -- The handler of `context`; `none` where nothing changed.
  unfoldable pub on_context : List (ContextMessage Other) → Option (List (ContextMessage Other))
  unfolding sanitize_all
  on_context ms = let (ms', changed) = sanitize_all ms in if changed then some ms' else none

  -- What the model gets: the messages of the handler's answer, or those it was given.
  abbrev pub messages_after : List (ContextMessage Other) → List (ContextMessage Other)
  messages_after ms = elim (on_context ms) [ none ↦ ms | some ms' ↦ ms' ]

  -- A failed tool result has content.
  abbrev pub IsSafe : ContextMessage Other → Type 0
  IsSafe (ContextMessage.tool_result r) = (not r.is_error || has_non_empty_content r.content) ≡ true
  IsSafe (ContextMessage.other o) = Unit {0}
