-- ===== src/Sanitizer/Safe.antt =====
-- The messages after the `context` handler of tool-result-sanitizer.ts.
use pi_dotfiles.Prelude.{
  subst, ◌⊎◌, ℕ, ◌≡◌, refl, sym, ap, true, false, not, ◌||◌, none, some, List, [], ◌∷◌, Text, All,
  arith, is_empty, trim, trim_start, trim_end, is_space, Bool-cases, inl, inr,
}
use pi_dotfiles.Sanitizer.{
  ToolResult, ContextMessage, IsSafe, has_non_empty_content, fallback_error_content,
  sanitize_error_content, with_content, sanitize_message, sanitize_all, on_context, messages_after,
}

trim_end-some : (x : ℕ) (xs : Text) → is_space x ≡ false → is_empty (trim_end (x ∷ xs)) ≡ false
unfolding trim_end
trim_end-some x xs h = ground (arith, h)

fallback_shows : (r : ToolResult) → has_non_empty_content (fallback_error_content r ∷ []) ≡ true
unfolding has_non_empty_content fallback_error_content trim trim_start is_space
fallback_shows r = ground (arith, trim_end-some 84 _ refl)

sanitize_cases :
    (r : ToolResult)
    → ((sanitize_error_content r ≡ none)
        × ((not r.is_error || has_non_empty_content r.content) ≡ true))
      ⊎ (sanitize_error_content r ≡ some (fallback_error_content r ∷ []))
unfolding sanitize_error_content
sanitize_cases r = ground arith

safe_unchanged :
    (r : ToolResult)
    → (not r.is_error || has_non_empty_content r.content) ≡ true
    → sanitize_error_content r ≡ none
unfolding sanitize_error_content
safe_unchanged r h = ground (arith, h)

fallback_safe :
    (r : ToolResult)
    → (not r.is_error || has_non_empty_content (fallback_error_content r ∷ [])) ≡ true
fallback_safe r = ground (arith, fallback_shows r)

module _ {ℓ} {Other : Type ℓ} where
  sanitize_message-IsSafe : (m : ContextMessage Other) → IsSafe (sanitize_message m).0
  unfolding sanitize_message
  sanitize_message-IsSafe (ContextMessage.tool_result r) = elim (sanitize_cases r) [
    | inl (e, h) ↦ subst (λ o. IsSafe {Other = Other} (with_content r o).0) (sym e) h
    | inr e ↦ subst (λ o. IsSafe {Other = Other} (with_content r o).0) (sym e) (fallback_safe r)
  ]
  sanitize_message-IsSafe (ContextMessage.other o) = tt

  sanitize_all-IsSafe : (ms : List (ContextMessage Other)) → All IsSafe (sanitize_all ms).0
  unfolding sanitize_all
  sanitize_all-IsSafe [] = tt
  sanitize_all-IsSafe (m ∷ ms) = (sanitize_message-IsSafe m, sanitize_all-IsSafe ms)

  sanitize_message-keeps :
      (m : ContextMessage Other) → (sanitize_message m).1 ≡ false → (sanitize_message m).0 ≡ m
  unfolding sanitize_message
  sanitize_message-keeps (ContextMessage.tool_result r) h = elim (sanitize_cases r) [
    | inl (e, safe) ↦ ap (λ o. (with_content {Other = Other} r o).0) e
    | inr e ↦
        let changed : (with_content {Other = Other} r (sanitize_error_content r)).1 ≡ true =
          ap (λ o. (with_content {Other = Other} r o).1) e in
        absurd cc
  ]
  sanitize_message-keeps (ContextMessage.other o) h = refl

  sanitize_all-keeps :
      (ms : List (ContextMessage Other)) → (sanitize_all ms).1 ≡ false → (sanitize_all ms).0 ≡ ms
  unfolding sanitize_all
  sanitize_all-keeps [] h = refl
  sanitize_all-keeps (m ∷ ms) h =
      let here = sanitize_message-keeps m (ground arith) in
      let later = sanitize_all-keeps ms (ground arith) in rw (here, later) refl

  messages_after-same : (ms : List (ContextMessage Other)) → messages_after ms ≡ (sanitize_all ms).0
  unfolding on_context
  messages_after-same ms = elim (Bool-cases (sanitize_all ms).1) [
    | inl e ↦ ground (arith, e)
    | inr e ↦ let same = sanitize_all-keeps ms e in ground (arith, e, same)
  ]

  safe_message-keeps : (m : ContextMessage Other) → IsSafe m → sanitize_message m ≡ (m, false)
  unfolding sanitize_message
  safe_message-keeps (ContextMessage.tool_result r) h = ap (with_content r) (safe_unchanged r h)
  safe_message-keeps (ContextMessage.other o) h = refl

  safe-keeps : (ms : List (ContextMessage Other)) → All IsSafe ms → (sanitize_all ms).1 ≡ false
  unfolding sanitize_all
  safe-keeps [] h = refl
  safe-keeps (m ∷ ms) (h, hs) =
      let here = safe_message-keeps m h in
      let later = safe-keeps ms hs in ground (arith, here, later)

  on_context-none : (ms : List (ContextMessage Other)) → All IsSafe ms → on_context ms ≡ none
  unfolding on_context
  on_context-none ms h = ground (arith, safe-keeps ms h)

  -- In what goes to the model every failed tool result has content, and given these messages again
  -- the handler changes nothing.
  pub messages_after-IsSafe :
      (ms : List (ContextMessage Other))
      → All IsSafe (messages_after ms) × (on_context (messages_after ms) ≡ none)
  messages_after-IsSafe ms =
      let same = messages_after-same ms in
      let safe = subst (All IsSafe) (sym same) (sanitize_all-IsSafe ms) in
      (safe, on_context-none (messages_after ms) safe)
