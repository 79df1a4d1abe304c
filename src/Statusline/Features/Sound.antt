-- ===== src/Statusline/Features/Sound.antt =====
-- The equalities of the state slices of statusline's features.
use pi_dotfiles.Prelude.{◌≡◌, ◌↔◌, refl, Bool, true, List, [], ◌∷◌, arith, subst}
use pi_dotfiles.Statusline.Features.{
  GitBranch, GitHubProfile, PullRequest, RepositoryStatus, McpStatus, FableRoutingStatus,
  LspClientSnapshot, LspStatus, git_branch_equals, github_profile_equals, pull_request_equals,
  repository_status_equals, repository_status, mcp_status_equals, mcp_status,
  fable_routing_status_equals, fable_routing_status, lsp_clients_equal, lsp_status_equals,
  lsp_status,
}

exact :
    {V : Type 0} (equals : V → V → Bool)
    → ((a b : V) → equals a b ≡ true → a ≡ b)
    → ((a : V) → equals a a ≡ true)
    → (a b : V) → (equals a b ≡ true) ↔ (a ≡ b)
exact equals sound same a b = (sound a b, λ e. subst (λ c. equals a c ≡ true) e (same a))

branch_sound : (a b : GitBranch) → git_branch_equals a b ≡ true → a ≡ b
unfolding git_branch_equals
branch_sound a b e = ground (arith, e)

profile_sound : (a b : GitHubProfile) → github_profile_equals a b ≡ true → a ≡ b
unfolding github_profile_equals
profile_sound a b e = ground (arith, e)

pull_request_sound : (a b : PullRequest) → pull_request_equals a b ≡ true → a ≡ b
unfolding pull_request_equals
pull_request_sound a b e = ground (arith, e)

repository_sound : (a b : RepositoryStatus) → repository_status_equals a b ≡ true → a ≡ b
unfolding repository_status_equals
repository_sound a b e = ground (
  arith,
  e,
  branch_sound a.branch b.branch,
  profile_sound a.profile b.profile,
  pull_request_sound a.pull_request b.pull_request,
)

branch_same : (a : GitBranch) → git_branch_equals a a ≡ true
unfolding git_branch_equals
branch_same a = ground arith

profile_same : (a : GitHubProfile) → github_profile_equals a a ≡ true
unfolding github_profile_equals
profile_same a = ground arith

pull_request_same : (a : PullRequest) → pull_request_equals a a ≡ true
unfolding pull_request_equals
pull_request_same a = ground arith

repository_same : (a : RepositoryStatus) → repository_status_equals a a ≡ true
unfolding repository_status_equals
repository_same a =
    ground (arith, branch_same a.branch, profile_same a.profile, pull_request_same a.pull_request)

mcp_sound : (a b : McpStatus) → mcp_status_equals a b ≡ true → a ≡ b
unfolding mcp_status_equals
mcp_sound a b e = ground (arith, e)

mcp_same : (a : McpStatus) → mcp_status_equals a a ≡ true
unfolding mcp_status_equals
mcp_same a = ground arith

fable_sound : (a b : FableRoutingStatus) → fable_routing_status_equals a b ≡ true → a ≡ b
unfolding fable_routing_status_equals
fable_sound a b e = ground (arith, e)

fable_same : (a : FableRoutingStatus) → fable_routing_status_equals a a ≡ true
unfolding fable_routing_status_equals
fable_same a = ground arith

clients_sound : (a b : List LspClientSnapshot) → lsp_clients_equal a b ≡ true → a ≡ b
unfolding lsp_clients_equal
clients_sound [] [] e = refl
clients_sound [] (y ∷ ys) e = absurd cc
clients_sound (x ∷ xs) [] e = absurd cc
clients_sound (x ∷ xs) (y ∷ ys) e = ground (arith, e, clients_sound xs ys)

clients_same : (a : List LspClientSnapshot) → lsp_clients_equal a a ≡ true
unfolding lsp_clients_equal
clients_same [] = refl
clients_same (x ∷ xs) = ground (arith, clients_same xs)

lsp_sound : (a b : LspStatus) → lsp_status_equals a b ≡ true → a ≡ b
unfolding lsp_status_equals
lsp_sound LspStatus.unknown LspStatus.unknown e = refl
lsp_sound LspStatus.not_running LspStatus.not_running e = refl
lsp_sound (LspStatus.running r b) (LspStatus.running s c) e =
    ground (arith, e, clients_sound r s, clients_sound b c)
lsp_sound LspStatus.unknown LspStatus.not_running e = absurd cc
lsp_sound LspStatus.unknown (LspStatus.running s c) e = absurd cc
lsp_sound LspStatus.not_running LspStatus.unknown e = absurd cc
lsp_sound LspStatus.not_running (LspStatus.running s c) e = absurd cc
lsp_sound (LspStatus.running r b) LspStatus.unknown e = absurd cc
lsp_sound (LspStatus.running r b) LspStatus.not_running e = absurd cc

lsp_same : (a : LspStatus) → lsp_status_equals a a ≡ true
unfolding lsp_status_equals
lsp_same LspStatus.unknown = refl
lsp_same LspStatus.not_running = refl
lsp_same (LspStatus.running r b) = ground (arith, clients_same r, clients_same b)

-- The equalities of the repository's, the MCP adapter's, the routing's and the language servers'
-- state hold exactly of equal values, so a state that changes is never taken for the one before.
pub keys_exact :
    (r r' : RepositoryStatus) (m m' : McpStatus) (f f' : FableRoutingStatus) (l l' : LspStatus)
    → ((repository_status.equals r r' ≡ true) ↔ (r ≡ r'))
      × ((mcp_status.equals m m' ≡ true) ↔ (m ≡ m'))
      × ((fable_routing_status.equals f f' ≡ true) ↔ (f ≡ f'))
      × ((lsp_status.equals l l' ≡ true) ↔ (l ≡ l'))
keys_exact r r' m m' f f' l l' = (
  exact repository_status_equals repository_sound repository_same r r',
  exact mcp_status_equals mcp_sound mcp_same m m',
  exact fable_routing_status_equals fable_sound fable_same f f',
  exact lsp_status_equals lsp_sound lsp_same l l',
)
