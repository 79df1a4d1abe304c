-- ===== src/Sanitizer/Tests.antt =====
-- A context with an empty failed result, and the theorem at it.
use pi_dotfiles.Prelude.{
  ◌≡◌, refl, true, none, some, List, [], ◌∷◌, codes, All, trim, trim_start, trim_end, is_space,
}
use pi_dotfiles.Sanitizer
use pi_dotfiles.Sanitizer.{Block, ToolResult, ContextMessage, IsSafe, on_context, messages_after}
use pi_dotfiles.Sanitizer.Safe.{messages_after-IsSafe}

abbrev failed : ToolResult
failed = record {
  tool_call_id = codes "7";
  tool_name = codes "bash";
  content = Block.text (codes "  ") ∷ [];
  is_error = true;
}

abbrev repaired : ToolResult
repaired = record failed {
  content =
      Block.text (codes "Tool \"bash\" failed without producing error output (toolCallId: 7).")
      ∷ [];
}

abbrev context : List (ContextMessage (Unit {0}))
context = ContextMessage.other tt ∷ ContextMessage.tool_result failed ∷ []

context_run :
    on_context context ≡ some (ContextMessage.other tt ∷ ContextMessage.tool_result repaired ∷ [])
unfolding on_context Sanitizer.sanitize_all Sanitizer.sanitize_message
    Sanitizer.sanitize_error_content Sanitizer.has_non_empty_content
    Sanitizer.fallback_error_content trim trim_start trim_end is_space
context_run = refl

messages_after-IsSafe_example :
    All IsSafe (messages_after context) × (on_context (messages_after context) ≡ none)
messages_after-IsSafe_example = messages_after-IsSafe context
