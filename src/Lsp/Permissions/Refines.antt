-- ===== src/Lsp/Permissions/Refines.antt =====
-- The permission store against a function from repositories and servers to permissions.
use pi_dotfiles.Prelude.{
  ◌≡◌, ◌≢◌, refl, sym, ap, ◌∙◌, subst, Option, none, some, [], ◌∷◌, Text, text_discrete, pick,
  arith, is_empty, if◌then◌else◌, Bool-cases, Option-cases, inl, inr,
}
use pi_dotfiles.Prelude.Dict
use pi_dotfiles.Lsp.Permissions.{
  Permission, Repo, Repos, Outcome, ok, err, Disk, WriteFault, Store, PermissionError,
  read_permission_file, write_permission_file, get_in, get_permission, repo_of, with_permission,
  without_permission, change_file, set_permission, reset_permission, encode_file,
}
use pi_dotfiles.Lsp.Permissions.RoundTrip.{
  IsDistinct, IsFile, parse-encode_file, parse-IsFile, set-IsDistinct, delete-IsDistinct,
  Outcome-cases,
}

abbrev pub Rights : Type 0
Rights = (repo server : Text) → Option Permission

-- The calls that change the file.
pub data Change : Type 0 where
  sets : (repo server : Text) → Permission → Change
  resets : (repo : Text) → Option Text → Change

unfoldable pub run_change : WriteFault → Change → Store → Outcome (Unit {0}) × Store
unfolding set_permission reset_permission
run_change fault (Change.sets repo server p) s = set_permission fault repo server p s
run_change fault (Change.resets repo server) s = reset_permission fault repo server s

-- What a call means for the rights.
abbrev pub change_spec : Change → Rights → Rights
change_spec (Change.sets repo server p) rights q t =
    pick (text_discrete repo q) (pick (text_discrete server t) (some p) (rights q t)) (rights q t)
change_spec (Change.resets repo none) rights q t = pick (text_discrete repo q) none (rights q t)
change_spec (Change.resets repo (some server)) rights q t =
    pick (text_discrete repo q) (pick (text_discrete server t) none (rights q t)) (rights q t)

change_of : Change → Repos → Repos
change_of (Change.sets repo server p) = with_permission repo server p
change_of (Change.resets repo none) = Dict.delete text_discrete repo
change_of (Change.resets repo (some server)) = without_permission repo server

with_permission_lem :
    (repo server : Text) (p : Permission) (repos : Repos) (q t : Text)
    → get_in (with_permission repo server p repos) q t
      ≡ pick
          (text_discrete repo q)
          (pick (text_discrete server t) (some p) (get_in repos q t))
          (get_in repos q t)
unfolding get_in with_permission
with_permission_lem repo server p repos q t = ground (
  arith,
  Dict.get-set text_discrete repo q (Dict.set text_discrete server p (repo_of repo repos)) repos,
  Dict.get-set text_discrete server t p (repo_of repo repos),
)

delete_lem :
    (repo : Text) (repos : Repos) (q t : Text)
    → get_in (Dict.delete text_discrete repo repos) q t
      ≡ pick (text_discrete repo q) none (get_in repos q t)
unfolding get_in Dict.get
delete_lem repo repos q t = ground (arith, Dict.get-delete text_discrete repo q repos)

-- The rights of a repository by what is stored for it.
abbrev rights_in : Option Repo → Text → Option Permission
rights_in none t = none
rights_in (some m) t = Dict.get text_discrete t m

get_in_lem :
    (repos : Repos) (q t : Text) → get_in repos q t ≡ rights_in (Dict.get text_discrete q repos) t
unfolding get_in Dict.get
get_in_lem repos q t = elim (Option-cases (Dict.get text_discrete q repos)) [
  | inl e ↦ ground (arith, e)
  | inr (m, e) ↦ ground (arith, e)
]

kept_in : Text → Repo → Option Repo
kept_in server m =
    let rest = Dict.delete text_discrete server m in if is_empty rest then none else some rest

kept_rights :
    (server t : Text) (m : Repo)
    → rights_in (kept_in server m) t
      ≡ pick (text_discrete server t) none (Dict.get text_discrete t m)
unfolding kept_in Dict.get
kept_rights server t m = kept (Dict.delete text_discrete server m) refl
  where
    kept :
        (rest : Repo)
        → Dict.delete text_discrete server m ≡ rest
        → rights_in (kept_in server m) t
          ≡ pick (text_discrete server t) none (Dict.get text_discrete t m)
    kept [] e =
        let gone = ap (Dict.get text_discrete t) e in
        ground (arith, e, gone, Dict.get-delete text_discrete server t m)
    kept (x ∷ rest) e = ground (arith, e, Dict.get-delete text_discrete server t m)

stored_after :
    (repo server : Text) (repos : Repos) (m : Repo) (q : Text)
    → Dict.get text_discrete repo repos ≡ some m
    → Dict.get text_discrete q (without_permission repo server repos)
      ≡ pick (text_discrete repo q) (kept_in server m) (Dict.get text_discrete q repos)
unfolding without_permission kept_in
stored_after repo server repos m q h = ground (
  arith,
  h,
  Dict.get-delete text_discrete repo q repos,
  Dict.get-set text_discrete repo q (Dict.delete text_discrete server m) repos,
)

without_missing :
    (repo server : Text) (repos : Repos)
    → Dict.get text_discrete repo repos ≡ none
    → without_permission repo server repos ≡ repos
unfolding without_permission
without_missing repo server repos h = ground (arith, h)

without_permission_lem :
    (repo server : Text) (repos : Repos) (q t : Text)
    → get_in (without_permission repo server repos) q t
      ≡ pick
          (text_discrete repo q)
          (pick (text_discrete server t) none (get_in repos q t))
          (get_in repos q t)
without_permission_lem repo server repos q t =
    elim (Option-cases (Dict.get text_discrete repo repos)) [
      | inl miss ↦
          let same = ap (λ r. get_in r q t) (without_missing repo server repos miss) in
          let stored = get_in_lem repos q t in ground (arith, miss, same, stored)
      | inr (m, hit) ↦
          let after = get_in_lem (without_permission repo server repos) q t in
          let before = get_in_lem repos q t in
          let stored = ap (λ o. rights_in o t) (stored_after repo server repos m q hit) in
          let kept = kept_rights server t m in ground (arith, hit, after, before, stored, kept)
    ]

change_of_lem :
    (c : Change) (repos : Repos) (q t : Text)
    → get_in (change_of c repos) q t ≡ change_spec c (get_in repos) q t
unfolding change_of
change_of_lem (Change.sets repo server p) repos q t = with_permission_lem repo server p repos q t
change_of_lem (Change.resets repo none) repos q t = delete_lem repo repos q t
change_of_lem (Change.resets repo (some server)) repos q t =
    without_permission_lem repo server repos q t

repo_of-IsDistinct : (repo : Text) (repos : Repos) → IsFile repos → IsDistinct (repo_of repo repos)
unfolding Dict.get
repo_of-IsDistinct repo [] i = tt
repo_of-IsDistinct repo ((r, m) ∷ repos) i =
    let ih =
      repo_of-IsDistinct repo repos (record { distinct = i.distinct.1; servers = i.servers.1 }) in
    ground (arith, ih, i.servers.0)

set-IsFile :
    (repo : Text) (m : Repo) (repos : Repos)
    → IsDistinct m
    → IsFile repos
    → IsFile (Dict.set text_discrete repo m repos)
set-IsFile repo m repos d i = record {
  distinct = set-IsDistinct repo m repos i.distinct;
  servers = Dict.set-All text_discrete (λ e. IsDistinct e.1) repo m repos (λ j. d) i.servers;
}

delete-IsFile :
    (repo : Text) (repos : Repos) → IsFile repos → IsFile (Dict.delete text_discrete repo repos)
delete-IsFile repo repos i = record {
  distinct = delete-IsDistinct repo repos i.distinct;
  servers = Dict.delete-All text_discrete (λ e. IsDistinct e.1) repo repos i.servers;
}

without_permission-IsFile :
    (repo server : Text) (repos : Repos)
    → IsFile repos
    → IsFile (without_permission repo server repos)
unfolding without_permission
without_permission-IsFile repo server repos i =
    elim (Option-cases (Dict.get text_discrete repo repos)) [
      | inl miss ↦ subst IsFile (sym (without_missing repo server repos miss)) i
      | inr (m, hit) ↦
          let rest = Dict.delete text_discrete server m in
          let m_distinct : IsDistinct m =
            subst IsDistinct (ground (arith, hit)) (repo_of-IsDistinct repo repos i) in
          let put = set-IsFile repo rest repos (delete-IsDistinct server m m_distinct) i in
          let gone = delete-IsFile repo repos i in
          elim (Bool-cases (is_empty rest)) [
            | inl e ↦
                let now : without_permission repo server repos
                    ≡ Dict.delete text_discrete repo repos =
                  ground (arith, hit, e) in
                subst IsFile (sym now) gone
            | inr e ↦
                let now : without_permission repo server repos
                    ≡ Dict.set text_discrete repo rest repos =
                  ground (arith, hit, e) in
                subst IsFile (sym now) put
          ]
    ]

change_of-IsFile : (c : Change) (repos : Repos) → IsFile repos → IsFile (change_of c repos)
unfolding change_of with_permission
change_of-IsFile (Change.sets repo server p) repos i =
    set-IsFile repo (Dict.set text_discrete server p (repo_of repo repos)) repos
      (set-IsDistinct server p (repo_of repo repos) (repo_of-IsDistinct repo repos i)) i
change_of-IsFile (Change.resets repo none) repos i = delete-IsFile repo repos i
change_of-IsFile (Change.resets repo (some server)) repos i =
    without_permission-IsFile repo server repos i

read-IsFile : (disk : Disk) (repos : Repos) → read_permission_file disk ≡ ok repos → IsFile repos
unfolding read_permission_file
read-IsFile Disk.missing repos h =
    let same : [] ≡ repos = cc in subst IsFile same (record { distinct = tt; servers = tt })
read-IsFile Disk.broken repos h = absurd cc
read-IsFile Disk.garbled repos h = absurd cc
read-IsFile (Disk.holds v) repos h = parse-IsFile v repos h

run_change-of :
    (fault : WriteFault) (c : Change) (s : Store)
    → run_change fault c s ≡ change_file fault (change_of c) s
unfolding run_change change_of set_permission reset_permission
run_change-of fault (Change.sets repo server p) s = refl
run_change-of fault (Change.resets repo none) s = refl
run_change-of fault (Change.resets repo (some server)) s = refl

-- What a call did: nothing, or its change to the rights of the file on the disk.
abbrev pub Effect : Change → Store → Outcome (Unit {0}) × Store → Type 0
Effect c s (err e, s') = s' ≡ s
Effect c s (ok u, s') =
    (before : Repos) × (read_permission_file s.disk ≡ ok before)
    × (read_permission_file s'.disk ≡ ok s'.file)
    × ((repo server : Text)
        → get_permission repo server s' ≡ change_spec c (get_in before) repo server)

change_file-works :
    (change : Repos → Repos) (s : Store) (before : Repos)
    → read_permission_file s.disk ≡ ok before
    → change_file WriteFault.works change s
      ≡ (ok tt, record { file = change before; disk = Disk.holds (encode_file (change before)) })
unfolding change_file write_permission_file
change_file-works change s before read = ground (arith, read)

change_file-fails :
    (fault : WriteFault) (change : Repos → Repos) (s : Store) (before : Repos)
    → read_permission_file s.disk ≡ ok before
    → fault ≢ WriteFault.works
    → (e : PermissionError) × (change_file fault change s ≡ (err e, s))
unfolding change_file write_permission_file
change_file-fails WriteFault.works change s before read h = absurd (h refl)
change_file-fails WriteFault.no_directory change s before read h =
    (PermissionError.no_directory, ground (arith, read))
change_file-fails WriteFault.no_temp_file change s before read h =
    (PermissionError.no_temp_file, ground (arith, read))
change_file-fails WriteFault.no_replace change s before read h =
    (PermissionError.no_replace, ground (arith, read))

change_file-unread :
    (fault : WriteFault) (change : Repos → Repos) (s : Store) (e : PermissionError)
    → read_permission_file s.disk ≡ err e
    → change_file fault change s ≡ (err e, s)
unfolding change_file
change_file-unread fault change s e h = ground (arith, h)

works-Effect :
    (c : Change) (s : Store) (before : Repos)
    → read_permission_file s.disk ≡ ok before
    → Effect c s (change_file WriteFault.works (change_of c) s)
unfolding read_permission_file get_permission
works-Effect c s before read =
    let file = change_of-IsFile c before (read-IsFile s.disk before read) in
    let done = change_file-works (change_of c) s before read in
    subst (Effect c s) (sym done) (
      before,
      read,
      parse-encode_file (change_of c before) file,
      λ repo server. change_of_lem c before repo server,
    )

fails-Effect :
    (fault : WriteFault) (c : Change) (s : Store) (before : Repos)
    → read_permission_file s.disk ≡ ok before
    → fault ≢ WriteFault.works
    → Effect c s (change_file fault (change_of c) s)
fails-Effect fault c s before read h =
    let (e, done) = change_file-fails fault (change_of c) s before read h in
    subst (Effect c s) (sym done) refl

change_file-Effect :
    (fault : WriteFault) (c : Change) (s : Store) → Effect c s (change_file fault (change_of c) s)
change_file-Effect fault c s = elim (Outcome-cases (read_permission_file s.disk)) [
  | inl (e, read) ↦ subst (Effect c s) (sym (change_file-unread fault (change_of c) s e read)) refl
  | inr (before, read) ↦ elim fault as (λ k. Effect c s (change_file k (change_of c) s)) [
    | WriteFault.works ↦ works-Effect c s before read
    | WriteFault.no_directory ↦ fails-Effect WriteFault.no_directory c s before read cc
    | WriteFault.no_temp_file ↦ fails-Effect WriteFault.no_temp_file c s before read cc
    | WriteFault.no_replace ↦ fails-Effect WriteFault.no_replace c s before read cc
  ]
]

-- How a call ends, by what reading the file gives and by the call of the file system that fails.
abbrev pub verdict : WriteFault → Outcome Repos → Outcome (Unit {0})
verdict fault (err e) = err e
verdict WriteFault.works (ok repos) = ok tt
verdict WriteFault.no_directory (ok repos) = err PermissionError.no_directory
verdict WriteFault.no_temp_file (ok repos) = err PermissionError.no_temp_file
verdict WriteFault.no_replace (ok repos) = err PermissionError.no_replace

change_file-verdict :
    (fault : WriteFault) (change : Repos → Repos) (s : Store)
    → (change_file fault change s).0 ≡ verdict fault (read_permission_file s.disk)
unfolding change_file write_permission_file
change_file-verdict WriteFault.works change s = ground arith
change_file-verdict WriteFault.no_directory change s = ground arith
change_file-verdict WriteFault.no_temp_file change s = ground arith
change_file-verdict WriteFault.no_replace change s = ground arith

-- A call of `set` or `reset` fails exactly where the file on the disk cannot be read or decoded or a
-- call of the file system fails, and then it changes neither the store nor the file. Else it starts from
-- the file on the disk and not from what the store knew: then the store and the file agree, and as a
-- function from repositories and servers they are what the file was, with the change of the call and
-- no other.
pub change_refines :
    (fault : WriteFault) (c : Change) (s : Store)
    → ((run_change fault c s).0 ≡ verdict fault (read_permission_file s.disk))
      × Effect c s (run_change fault c s)
change_refines fault c s =
    let same = run_change-of fault c s in
    (
      ap (λ r. r.0) same ∙ change_file-verdict fault (change_of c) s,
      subst (Effect c s) (sym same) (change_file-Effect fault c s),
    )
