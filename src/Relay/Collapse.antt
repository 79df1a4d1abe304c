-- ===== src/Relay/Collapse.antt =====
-- The markers of web-herdr-relay/normalization.ts that a user message is shown without.
use pi_dotfiles.Prelude.{
  Bool, true, false, ◌==◌, ◌&&◌, ◌||◌, if◌then◌else◌, Option, none, some, List, [], ◌∷◌, ◌++◌, Text,
  codes, length, map, drop, is_empty, starts_with, trim, join,
}
use pi_dotfiles.Prelude.Regex.{is_lower, is_digit}

-- The first place where a text is read as wanted, with what stands before it.
first_split {ℓ} : {A : Type ℓ} → (Text → Option A) → Text → Option (Text × A)
first_split read [] = elim (read []) [ none ↦ none | some a ↦ some ([], a) ]
first_split read (x ∷ xs) = elim (read (x ∷ xs)) [
  | some a ↦ some ([], a)
  | none ↦ elim (first_split read xs) [ none ↦ none | some (before, a) ↦ some (x ∷ before, a) ]
]

-- The last such place.
last_read {ℓ} : {A : Type ℓ} → (Text → Option A) → Text → Option A
last_read read [] = read []
last_read read (x ∷ xs) = elim (last_read read xs) [ some a ↦ some a | none ↦ read (x ∷ xs) ]

abbrev after : (mark : Text) → Text → Option Text
after mark text = if starts_with mark text then some (drop (length mark) text) else none

-- `(?:\n\n([\s\S]*))?$`, without the group `[]`.
tail_group : Text → Option Text
tail_group [] = some []
tail_group (x ∷ y ∷ rest) = if (x == 10) && (y == 10) then some rest else none
tail_group _ = none

abbrev closes : (mark : Text) → Text → Option Text
closes mark text = elim (after mark text) [ none ↦ none | some rest ↦ tail_group rest ]

-- `[a-z0-9]+(?:-[a-z0-9]+)*` up to the first unit that is not of it; `fresh` where a unit must follow.
skill_name : (fresh : Bool) → Text → Option (Text × Text)
skill_name true [] = none
skill_name false [] = some ([], [])
skill_name fresh (x ∷ xs) =
    let next = skill_name false xs in
    let dash = skill_name true xs in
    if is_lower x || is_digit x
    then elim next [ none ↦ none | some (name, rest) ↦ some (x ∷ name, rest) ]
    else if fresh
    then none
    else if x == b'-'
    then elim dash [ none ↦ none | some (name, rest) ↦ some (x ∷ name, rest) ]
    else some ([], x ∷ xs)

abbrev line : Text → Text
line t = 10 ∷ t

abbrev skill_command : (name arguments : Text) → Text
skill_command name arguments =
    b'/' ∷ (name ++ (let t = trim arguments in if is_empty t then [] else 32 ∷ t))

-- The marker of a skill with what closes it: its name and the arguments.
marked_skill : Text → Option (Text × Text)
unfolding tail_group last_read skill_name
marked_skill text = elim (after (line (codes "<!-- web-herdr-skill:skill:")) text) [
  | none ↦ none
  | some named ↦ elim (skill_name true named) [
    | none ↦ none
    | some (name, rest) ↦ elim (after (codes " -->\n") rest) [
      | none ↦ none
      | some body ↦ elim (last_read (closes (codes "\n<!-- /web-herdr-skill -->\n</skill>")) body) [
        | none ↦ none
        | some arguments ↦ some (codes "skill:" ++ name, arguments)
      ]
    ]
  ]
]

native_skill : Text → Option (Text × Text)
unfolding skill_name last_read tail_group
native_skill text = elim (after (codes "<skill name=\"") text) [
  | none ↦ none
  | some named ↦ elim (skill_name true named) [
    | none ↦ none
    | some (name, rest) ↦ elim (after (codes "\"") rest) [
      | none ↦ none
      | some body ↦ elim (last_read (closes (codes "\n</skill>")) body) [
        | none ↦ none
        | some arguments ↦ some (codes "skill:" ++ name, arguments)
      ]
    ]
  ]
]

expanded_skill : Text → Option (Text × Text)
unfolding marked_skill last_read
expanded_skill text = elim (after (codes "<skill") text) [
  | none ↦ none
  | some body ↦ last_read marked_skill body
]

unfoldable pub collapse_expanded_skill : Text → Text
unfolding expanded_skill native_skill
collapse_expanded_skill text = elim (expanded_skill text) [
  | some (name, arguments) ↦ skill_command name arguments
  | none ↦ elim (native_skill text) [
    | some (name, arguments) ↦ skill_command name arguments
    | none ↦
        if starts_with (codes "<skill ") text
        then codes "/skill:[redacted malformed expansion]"
        else text
  ]
]

-- `text.split("\n")`
lines : Text → List Text
lines [] = [] ∷ []
lines (x ∷ xs) = elim (lines xs) [
  | [] ↦ []
  | l ∷ ls ↦ if x == 10 then [] ∷ l ∷ ls else (x ∷ l) ∷ ls
]

-- `line.slice(0, line.indexOf("\t"))`, and none where there is no tab.
before_tab : Text → Option Text
before_tab [] = none
before_tab (x ∷ xs) =
    let rest = before_tab xs in
    if x == 9 then some [] else elim rest [ none ↦ none | some t ↦ some (x ∷ t) ]

file_names : List Text → List Text
unfolding before_tab
file_names [] = []
file_names (l ∷ ls) =
    let rest = file_names ls in
    elim (before_tab l) [
      | none ↦ rest
      | some t ↦ let name = trim t in if is_empty name then rest else name ∷ rest
    ]

abbrev malformed_files : Text
malformed_files = codes "Attached files: [redacted malformed attachment metadata]"

abbrev uploads_head : Text
uploads_head = codes "<web-herdr-files>\nThe following user-uploaded files are available locally:\n"

-- The lines of an attachment block, and what follows it.
uploaded_files : Text → Option (Text × Text)
unfolding first_split tail_group
uploaded_files text = elim (after uploads_head text) [
  | none ↦ none
  | some body ↦ first_split (closes (codes "\n</web-herdr-files>")) body
]

unfoldable pub collapse_uploaded_files : Text → Text
unfolding uploaded_files collapse_expanded_skill file_names lines
collapse_uploaded_files text = elim (uploaded_files text) [
  | none ↦
      if starts_with (codes "<web-herdr-files>") text
      then malformed_files
      else collapse_expanded_skill text
  | some (listed, rest) ↦
      let names = file_names (lines listed) in
      let summary =
        codes "Attached files:\n" ++ join (10 ∷ []) (map (λ n. codes "- " ++ n) names) in
      let content = collapse_expanded_skill (trim rest) in
      if is_empty names
      then malformed_files
      else if is_empty content
      then summary
      else summary ++ (10 ∷ 10 ∷ content)
]
