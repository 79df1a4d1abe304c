-- ===== src/Models/Resolve.antt =====
-- `resolveModelReference` of herdr-subagent/model-resolver.ts.
use pi_dotfiles.Prelude.{
  ℕ, ◌+◌, ◌*◌, Bool, true, false, ltb, ◌==◌, ◌&&◌, ◌||◌, if◌then◌else◌, Option, none, some, List,
  [], ◌∷◌, ◌++◌, map, Text, codes, length, text_discrete, is_space, includes, join, pick,
}
use pi_dotfiles.Prelude.KeySet
use pi_dotfiles.Prelude.Regex.{is_digit}

pub record ModelEntry : Type 0 where
  pub provider : Text
  pub id : Text
  pub name : Text

-- The registry of pi; `get_available` is none where it has no such method.
pub record ModelRegistry : Type 0 where
  pub find_model : (provider model_id : Text) → Option ModelEntry
  pub get_all : List ModelEntry
  pub get_available : Option (List ModelEntry)

-- What the code takes from the runtime: `toLowerCase`, and the order of `Array.sort` on strings.
pub record Strings : Type 0 where
  pub lower : Text → Text
  pub sort : List Text → List Text

pub record ResolvedModel : Type 0 where
  pub model : ModelEntry
  pub reference : Text

pub record ModelResolutionFailed : Type 0 where
  pub input : Text
  pub available_models : List Text
  pub message : Text

pub data Resolution : Type 0 where
  resolved : ResolvedModel → Resolution
  failed : ModelResolutionFailed → Resolution

-- A score of `base + parts / whole`; a whole number has `whole` 1.
pub record Score : Type 0 where
  pub base : ℕ
  pub parts : ℕ
  pub whole : ℕ

abbrev pub points : ℕ → Score
points n = record { base = n; parts = 0; whole = 1 }

abbrev pub numerator : Score → ℕ
numerator a = a.base * a.whole + a.parts

-- `a > b`
unfoldable pub above : Score → Score → Bool
above a b = ltb (numerator b * a.whole) (numerator a * b.whole)

unfoldable pub model_reference : ModelEntry → Text
model_reference m = m.provider ++ (b'/' ∷ m.id)

unfoldable pub available_models : ModelRegistry → List ModelEntry
available_models r = elim r.get_available [ none ↦ r.get_all | some models ↦ models ]

unfoldable pub found : ModelEntry → ResolvedModel
unfolding model_reference
found m = record { model = m; reference = model_reference m }

-- The text before the first slash and the text after it.
unfoldable pub split_provider_reference : Text → Option (Text × Text)
split_provider_reference [] = none
split_provider_reference (x ∷ xs) =
    let rest = split_provider_reference xs in
    if x == b'/'
    then some ([], xs)
    else elim rest [ none ↦ none | some (provider, id) ↦ some (x ∷ provider, id) ]

abbrev splits : ℕ → Bool
splits c = is_space c || (c == b'-') || (c == b'/')

-- `query.split(/[\s\-/]+/u)`; `after` says that a run of separators goes on.
split_parts : (after : Bool) → Text → List Text
split_parts after [] = [] ∷ []
split_parts after (x ∷ xs) =
    if splits x
    then if after then split_parts true xs else [] ∷ split_parts true xs
    else elim (split_parts false xs) [ [] ↦ (x ∷ []) ∷ [] | p ∷ ps ↦ (x ∷ p) ∷ ps ]

all_digits : Text → Bool
all_digits [] = true
all_digits (x ∷ xs) = let rest = all_digits xs in is_digit x && rest

-- `/^\d{8}$/u.test(part)`
abbrev is_date_stamp : Text → Bool
is_date_stamp part = (length part == 8) && all_digits part

every_part : (Text → Bool) → List Text → Bool
every_part p [] = true
every_part p (t ∷ ts) = let rest = every_part p ts in p t && rest

-- `registry.find(model.provider, model.id) ?? model`
abbrev pub registered : ModelRegistry → ModelEntry → ModelEntry
registered registry m = elim (registry.find_model m.provider m.id) [ none ↦ m | some exact ↦ exact ]

-- What `fuzzyMatch` makes of the best model and its score.
unfoldable pub accepted : ModelRegistry → Option ModelEntry → Score → Option ResolvedModel
unfolding above found
accepted registry none score = none
accepted registry (some m) score =
    if above (points 20) score then none else some (found (registered registry m))

module _ (strings : Strings) where
  -- `input.toLowerCase().replace(/\./gu, "-")`
  unfoldable pub normalize_model_text : Text → Text
  normalize_model_text input = map (λ c. if c == b'.' then b'-' else c) (strings.lower input)

  unfoldable pub score_model : (query : Text) → ModelEntry → Score
  unfolding normalize_model_text split_parts every_part all_digits model_reference
  score_model query m =
      let id = normalize_model_text m.id in
      let name = normalize_model_text m.name in
      let provider = normalize_model_text m.provider in
      let full = normalize_model_text (model_reference m) in
      let known = λ (part : Text).
        is_date_stamp part || includes part id || includes part name || includes part provider in
      if pick (text_discrete id query) true false || pick (text_discrete full query) true false
      then points 100
      else if includes query id || includes query full
      then record { base = 60; parts = length query * 30; whole = length id }
      else if includes query name
      then record { base = 40; parts = length query * 20; whole = length name }
      else if every_part known (split_parts false query)
      then points 20
      else points 0

  -- The loop of `fuzzyMatch`: the first of the models that score best, above nothing.
  unfoldable pub best_from :
      (query : Text) → List ModelEntry → Option ModelEntry → Score → Option ModelEntry × Score
  unfolding score_model above
  best_from query [] best score = (best, score)
  best_from query (m ∷ ms) best score =
      if above (score_model query m) score
      then best_from query ms (some m) (score_model query m)
      else best_from query ms best score

  unfoldable pub fuzzy_match :
      (input : Text) → ModelRegistry → List ModelEntry → Option ResolvedModel
  unfolding best_from normalize_model_text accepted above
  fuzzy_match input registry available =
      let (best, score) = best_from (normalize_model_text input) available none (points 0) in
      accepted registry best score

  unfoldable pub exact_available_match :
      (input : Text) → ModelRegistry → List ModelEntry → Option ResolvedModel
  unfolding split_provider_reference found model_reference
  exact_available_match input registry available = elim (split_provider_reference input) [
    | none ↦ none
    | some (provider, model_id) ↦
        let references = map (λ m. strings.lower (model_reference m)) available in
        if KeySet.has text_discrete (strings.lower input) references
        then elim (registry.find_model provider model_id) [ none ↦ none | some m ↦ some (found m) ]
        else none
  ]

  unfoldable pub not_found : (input : Text) → List ModelEntry → ModelResolutionFailed
  unfolding model_reference
  not_found input models =
      let refs = strings.sort (map model_reference models) in
      record {
        input = input;
        available_models = refs;
        message =
            codes "Model not found: \""
            ++ (input
                ++ (codes "\".\n\nAvailable models:\n"
                    ++ join (10 ∷ []) (map (λ r. codes "  " ++ r) refs)));
      }

  -- The third attempt: the text behind the provider, under any provider.
  unfoldable pub bare_match :
      (input : Text) → ModelRegistry → List ModelEntry → Option ResolvedModel
  unfolding split_provider_reference
  bare_match input registry available = elim (split_provider_reference input) [
    | none ↦ none
    | some (provider, model_id) ↦ fuzzy_match model_id registry available
  ]

  unfoldable pub resolve_model_reference : (input : Text) → ModelRegistry → Resolution
  unfolding available_models
  resolve_model_reference input registry =
      let available = available_models registry in
      elim (exact_available_match input registry available) [
        | some r ↦ Resolution.resolved r
        | none ↦ elim (fuzzy_match input registry available) [
          | some r ↦ Resolution.resolved r
          | none ↦ elim (bare_match input registry available) [
            | some r ↦ Resolution.resolved r
            | none ↦ Resolution.failed (not_found input available)
          ]
        ]
      ]
