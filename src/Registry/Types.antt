-- ===== src/Registry/Types.antt =====
-- The decoded schemas of herdr-subagent/schemas.ts.
use pi_dotfiles.Prelude.{[], ◌∷◌, Bool, true, false, Option, none, some, Text, text_discrete, pick}

pub data Phase : Type 0 where
  reserved active : Phase

pub record WorktreeInfo : Type 0 where
  pub path : Text
  pub branch : Text
  pub base_sha : Text
  pub work_path : Text

pub record RegistryEntry : Type 0 where
  pub name : Text
  pub phase : Option Phase
  pub owner_pane_id : Option Text
  pub target : Option Text
  pub pane_id : Option Text
  pub tab_id : Option Text
  pub workspace_id : Option Text
  pub terminal_id : Option Text
  pub cwd : Text
  pub label : Text
  pub worktree : Option WorktreeInfo
  pub agent_type : Option Text
  pub model : Option Text
  pub thinking : Option Text
  pub task_file : Text
  pub system_prompt_file : Option Text
  pub created_at : Text
  pub updated_at : Text

pub record HerdrAgent : Type 0 where
  pub pane_id : Option Text
  pub terminal_id : Option Text
  pub tab_id : Option Text
  pub workspace_id : Option Text
  pub agent_status : Option Text

pub record HerdrPane : Type 0 where
  pub pane_id : Option Text
  pub terminal_id : Option Text

-- `entry.phase ?? "active"`
unfoldable pub entry_phase : RegistryEntry → Phase
entry_phase e = elim e.phase [ none ↦ Phase.active | some p ↦ p ]

-- `value === t` for a value that may be undefined.
abbrev pub is_text : Option Text → Text → Bool
is_text none t = false
is_text (some u) t = pick (text_discrete u t) true false

-- A value that is present and not the empty text.
abbrev pub given : Option Text → Option Text
given none = none
given (some []) = none
given (some (c ∷ t)) = some (c ∷ t)

-- `a !== undefined && b === a`
abbrev pub agrees : Option Text → Option Text → Bool
agrees none b = false
agrees (some t) b = is_text b t
