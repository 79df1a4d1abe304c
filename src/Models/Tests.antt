-- ===== src/Models/Tests.antt =====
-- A registry of models, and how a reference is matched there.
use pi_dotfiles.Prelude.{◌≡◌, refl, none, [], ◌∷◌, codes, text_discrete, includes, is_space}
use pi_dotfiles.Prelude.KeySet
use pi_dotfiles.Models.Resolve
use pi_dotfiles.Models.Resolve.{
  ModelEntry, ModelRegistry, Strings, Resolution, found, normalize_model_text, fuzzy_match,
  resolve_model_reference,
}
use pi_dotfiles.Models.Best.{IsLooseMatch, fuzzy_match-IsLooseMatch}

-- Texts of small letters, which are in order already.
abbrev strings : Strings
strings = record { lower = λ t. t; sort = λ ts. ts }

abbrev small : ModelEntry
small = record { provider = codes "ai"; id = codes "sol-5-mini"; name = codes "sol mini" }

abbrev large : ModelEntry
large = record { provider = codes "ai"; id = codes "sol-5.6"; name = codes "sol" }

abbrev registry : ModelRegistry
registry = record {
  find_model = λ provider id. none;
  get_all = small ∷ large ∷ [];
  get_available = none;
}

fuzzy_match-IsLooseMatch_example :
    IsLooseMatch strings
      (normalize_model_text strings (codes "sol-5"))
      registry
      (small ∷ large ∷ [])
      (fuzzy_match strings (codes "sol-5") registry (small ∷ large ∷ []))
fuzzy_match-IsLooseMatch_example =
    fuzzy_match-IsLooseMatch strings registry (codes "sol-5") (small ∷ large ∷ [])

-- The provider of the reference is unknown, and its date stamp names no model.
stamped_run :
    resolve_model_reference strings (codes "old/sol-5.6-20250101") registry
    ≡ Resolution.resolved (found large)
unfolding resolve_model_reference fuzzy_match Resolve.accepted Resolve.best_from Resolve.score_model
    normalize_model_text Resolve.above Resolve.model_reference Resolve.exact_available_match
    Resolve.split_provider_reference Resolve.bare_match Resolve.available_models KeySet.has
    text_discrete includes is_space
stamped_run = refl
