-- ===== src/Statusline/Features.antt =====
-- The state slices of the features in statusline: repository/state.ts, mcp/state.ts, fable/state.ts
-- and lsp/state.ts.
pub mod Sound
use pi_dotfiles.Prelude.{
  ℕ, Bool, true, false, ◌==◌, ◌&&◌, Option, none, some, List, [], ◌∷◌, Text, codes, text_discrete,
  pick,
}
use pi_dotfiles.Statusline.State.{StateKey}

abbrev pub same_text : Text → Text → Bool
same_text t u = pick (text_discrete t u) true false

pub data GitBranch : Type 0 where
  unknown not_repository unavailable : GitBranch
  active : (name : Text) → GitBranch

pub data GitHubProfile : Type 0 where
  unknown unavailable : GitHubProfile
  active : (login : Text) → GitHubProfile

pub data PullRequest : Type 0 where
  unknown nothing unavailable : PullRequest
  opened : (number : ℕ) (url : Text) → PullRequest

pub record RepositoryStatus : Type 0 where
  pub branch : GitBranch
  pub profile : GitHubProfile
  pub pull_request : PullRequest

unfoldable pub git_branch_equals : GitBranch → GitBranch → Bool
git_branch_equals GitBranch.unknown GitBranch.unknown = true
git_branch_equals GitBranch.not_repository GitBranch.not_repository = true
git_branch_equals GitBranch.unavailable GitBranch.unavailable = true
git_branch_equals (GitBranch.active t) (GitBranch.active u) = same_text t u
git_branch_equals _ _ = false

unfoldable pub github_profile_equals : GitHubProfile → GitHubProfile → Bool
github_profile_equals GitHubProfile.unknown GitHubProfile.unknown = true
github_profile_equals GitHubProfile.unavailable GitHubProfile.unavailable = true
github_profile_equals (GitHubProfile.active t) (GitHubProfile.active u) = same_text t u
github_profile_equals _ _ = false

unfoldable pub pull_request_equals : PullRequest → PullRequest → Bool
pull_request_equals PullRequest.unknown PullRequest.unknown = true
pull_request_equals PullRequest.nothing PullRequest.nothing = true
pull_request_equals PullRequest.unavailable PullRequest.unavailable = true
pull_request_equals (PullRequest.opened m t) (PullRequest.opened n u) = (m == n) && same_text t u
pull_request_equals _ _ = false

unfoldable pub repository_status_equals : RepositoryStatus → RepositoryStatus → Bool
unfolding git_branch_equals github_profile_equals pull_request_equals
repository_status_equals a b =
    git_branch_equals a.branch b.branch
    && github_profile_equals a.profile b.profile
    && pull_request_equals a.pull_request b.pull_request

abbrev pub repository_status : StateKey RepositoryStatus
repository_status = record {
  id = codes "repository";
  initial = record {
    branch = GitBranch.unknown;
    profile = GitHubProfile.unknown;
    pull_request = PullRequest.unknown;
  };
  equals = repository_status_equals;
}

pub data McpStatus : Type 0 where
  unknown unavailable : McpStatus
  connected partially : (connected total : ℕ) → McpStatus
  connecting other : (text : Text) → McpStatus

unfoldable pub mcp_status_equals : McpStatus → McpStatus → Bool
mcp_status_equals McpStatus.unknown McpStatus.unknown = true
mcp_status_equals McpStatus.unavailable McpStatus.unavailable = true
mcp_status_equals (McpStatus.connected c t) (McpStatus.connected d u) = (c == d) && (t == u)
mcp_status_equals (McpStatus.partially c t) (McpStatus.partially d u) = (c == d) && (t == u)
mcp_status_equals (McpStatus.connecting t) (McpStatus.connecting u) = same_text t u
mcp_status_equals (McpStatus.other t) (McpStatus.other u) = same_text t u
mcp_status_equals _ _ = false

abbrev pub mcp_status : StateKey McpStatus
mcp_status = record { id = codes "mcp"; initial = McpStatus.unknown; equals = mcp_status_equals }

pub data FableRoutingStatus : Type 0 where
  ready checking direct : FableRoutingStatus
  rerouted : (model : Text) → FableRoutingStatus
  refused : (explanation : Option Text) → FableRoutingStatus
  failed : (message : Text) → FableRoutingStatus

same_explanation : Option Text → Option Text → Bool
same_explanation none none = true
same_explanation (some t) (some u) = same_text t u
same_explanation _ _ = false

unfoldable pub fable_routing_status_equals : FableRoutingStatus → FableRoutingStatus → Bool
unfolding same_explanation
fable_routing_status_equals FableRoutingStatus.ready FableRoutingStatus.ready = true
fable_routing_status_equals FableRoutingStatus.checking FableRoutingStatus.checking = true
fable_routing_status_equals FableRoutingStatus.direct FableRoutingStatus.direct = true
fable_routing_status_equals (FableRoutingStatus.rerouted t) (FableRoutingStatus.rerouted u) =
    same_text t u
fable_routing_status_equals (FableRoutingStatus.refused t) (FableRoutingStatus.refused u) =
    same_explanation t u
fable_routing_status_equals (FableRoutingStatus.failed t) (FableRoutingStatus.failed u) =
    same_text t u
fable_routing_status_equals _ _ = false

abbrev pub fable_routing_status : StateKey FableRoutingStatus
fable_routing_status = record {
  id = codes "fable-routing";
  initial = FableRoutingStatus.ready;
  equals = fable_routing_status_equals;
}

pub record LspClientSnapshot : Type 0 where
  pub id : Text
  pub label : Text

pub data LspStatus : Type 0 where
  unknown not_running : LspStatus
  running : (running broken : List LspClientSnapshot) → LspStatus

-- Lists of different lengths are not equal.
unfoldable pub lsp_clients_equal : List LspClientSnapshot → List LspClientSnapshot → Bool
lsp_clients_equal [] [] = true
lsp_clients_equal (a ∷ ls) (b ∷ rs) =
    let rest = lsp_clients_equal ls rs in same_text a.id b.id && same_text a.label b.label && rest
lsp_clients_equal _ _ = false

unfoldable pub lsp_status_equals : LspStatus → LspStatus → Bool
unfolding lsp_clients_equal
lsp_status_equals LspStatus.unknown LspStatus.unknown = true
lsp_status_equals LspStatus.not_running LspStatus.not_running = true
lsp_status_equals (LspStatus.running r b) (LspStatus.running s c) =
    lsp_clients_equal r s && lsp_clients_equal b c
lsp_status_equals _ _ = false

abbrev pub lsp_status : StateKey LspStatus
lsp_status = record {
  id = codes "lsp";
  initial = LspStatus.not_running;
  equals = lsp_status_equals;
}
