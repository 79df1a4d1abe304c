-- ===== src/Lsp/Permissions/RoundTrip.antt =====
-- `parsePermissionFile` on what `writePermissionFile` writes.
use pi_dotfiles.Prelude.{
  ◌≡◌, refl, sym, ap, ◌∙◌, Option, none, some, List, [], ◌∷◌, ◌++◌, Text, codes, text_discrete, All,
  arith, Option-cases, inl, inr, ◌⊎◌, subst,
}
use mathlib.Core.List.{append_assoc, append-nil}
use pi_dotfiles.Prelude.Dict
use pi_dotfiles.Prelude.Json.{
  Value, fields_of, fields_from, lookup, as_record, fields_of-fields_from,
}
use pi_dotfiles.Lsp.Permissions.{
  Permission, Repo, Repos, PermissionError, Outcome, ok, err, parse_fields, parse_permission,
  parse_repo, parse_repos, parse_permission_file, encode_permission, encode_fields, encode_repo,
  encode_file,
}

-- No key comes twice.
abbrev pub IsDistinct : {V : Type 0} → List (Text × V) → Type 0
IsDistinct [] = Unit
IsDistinct ((k, v) ∷ m) = (Dict.get text_discrete k m ≡ none) × IsDistinct m

-- No key of the second is one of the first.
abbrev IsApart : {V : Type 0} → List (Text × V) → List (Text × V) → Type 0
IsApart acc [] = Unit
IsApart acc ((k, v) ∷ m) = (Dict.get text_discrete k acc ≡ none) × IsApart acc m

module _ {V : Type 0} where
  set-append :
      (k : Text) (v : V) (acc : List (Text × V))
      → Dict.get text_discrete k acc ≡ none
      → Dict.set text_discrete k v acc ≡ acc ++ (k, v) ∷ []
  unfolding Dict.get Dict.set
  set-append k v [] h = refl
  set-append k v ((j, w) ∷ acc) h = ground (arith, set-append k v acc)

  get-append_one :
      (j k : Text) (v : V) (acc : List (Text × V))
      → Dict.get text_discrete j acc ≡ none
      → Dict.get text_discrete j ((k, v) ∷ []) ≡ none
      → Dict.get text_discrete j (acc ++ (k, v) ∷ []) ≡ none
  unfolding Dict.get
  get-append_one j k v [] h e = e
  get-append_one j k v ((i, w) ∷ acc) h e = ground (arith, get-append_one j k v acc)

  IsApart-append :
      (k : Text) (v : V) (acc m : List (Text × V))
      → IsApart acc m
      → Dict.get text_discrete k m ≡ none
      → IsApart (acc ++ (k, v) ∷ []) m
  unfolding Dict.get
  IsApart-append k v acc [] a d = tt
  IsApart-append k v acc ((j, w) ∷ m) (h, a) d =
      (get-append_one j k v acc h (ground arith), IsApart-append k v acc m a (ground arith))

  IsApart-nil : (m : List (Text × V)) → IsApart [] m
  unfolding Dict.get
  IsApart-nil [] = tt
  IsApart-nil ((k, v) ∷ m) = (refl, IsApart-nil m)

  -- The decoder gives every field's value back.
  abbrev pub Decodes : (Text → Value → Outcome V) → (V → Value) → Text × V → Type 0
  Decodes f g e = f e.0 (g e.1) ≡ ok e.1

  parse_fields-append :
      (f : Text → Value → Outcome V) (g : V → Value) (acc m : List (Text × V))
      → IsDistinct m
      → IsApart acc m
      → All (Decodes f g) m
      → parse_fields f acc (encode_fields g m) ≡ ok (acc ++ m)
  unfolding parse_fields
  parse_fields-append f g acc [] d a h = ap ok (sym (append-nil acc))
  parse_fields-append f g acc ((k, v) ∷ m) (d, ds) (a, rest) (h, hs) =
      let step : parse_fields f acc (encode_fields g ((k, v) ∷ m))
          ≡ parse_fields f (acc ++ (k, v) ∷ []) (encode_fields g m) =
        rw (h, parse_fields)
          (ap (λ x. parse_fields f x (encode_fields g m)) (set-append k v acc a)) in
      step
      ∙ parse_fields-append f g (acc ++ (k, v) ∷ []) m ds (IsApart-append k v acc m rest d) hs
      ∙ ap ok (append_assoc acc ((k, v) ∷ []) m)

  pub parse_fields-encode :
      (f : Text → Value → Outcome V) (g : V → Value) (m : List (Text × V))
      → IsDistinct m
      → All (Decodes f g) m
      → parse_fields f [] (fields_of (fields_from (encode_fields g m))) ≡ ok m
  parse_fields-encode f g m d h =
      ap (parse_fields f []) (fields_of-fields_from (encode_fields g m))
      ∙ parse_fields-append f g [] m d (IsApart-nil m) h

-- A permission file: no repository comes twice, and no server of a repository.
pub record IsFile (repos : Repos) : Type 0 where
  pub distinct : IsDistinct repos
  pub servers : All (λ e. IsDistinct e.1) repos

parse-encode_permission :
    (repo server : Text) (p : Permission)
    → parse_permission repo server (encode_permission p) ≡ ok p
unfolding parse_permission text_discrete
parse-encode_permission repo server Permission.allow = refl
parse-encode_permission repo server Permission.deny = refl

permissions-Decodes :
    (repo : Text) (m : Repo) → All (Decodes (parse_permission repo) encode_permission) m
permissions-Decodes repo [] = tt
permissions-Decodes repo ((server, p) ∷ m) =
    (parse-encode_permission repo server p, permissions-Decodes repo m)

parse-encode_repo : (repo : Text) (m : Repo) → IsDistinct m → parse_repo repo (encode_repo m) ≡ ok m
unfolding parse_repo
parse-encode_repo repo m d =
    parse_fields-encode (parse_permission repo) encode_permission m d (permissions-Decodes repo m)

repos-Decodes :
    (repos : Repos) → All (λ e. IsDistinct e.1) repos → All (Decodes parse_repo encode_repo) repos
repos-Decodes [] h = tt
repos-Decodes ((repo, m) ∷ repos) (h, hs) = (parse-encode_repo repo m h, repos-Decodes repos hs)

-- A permission file is read back as it was written.
pub parse-encode_file :
    (repos : Repos) → IsFile repos → parse_permission_file (encode_file repos) ≡ ok repos
unfolding parse_permission_file encode_file parse_repos text_discrete
parse-encode_file repos i =
    parse_fields-encode parse_repo encode_repo repos i.distinct (repos-Decodes repos i.servers)

pub Outcome-cases :
    {A : Type 0} (o : Outcome A) → ((e : PermissionError) × (o ≡ err e)) ⊎ ((a : A) × (o ≡ ok a))
Outcome-cases (err e) = inl (e, refl)
Outcome-cases (ok a) = inr (a, refl)

-- What is decoded has no key twice.
pub set-IsDistinct :
    {V : Type 0} (k : Text) (v : V) (m : List (Text × V))
    → IsDistinct m
    → IsDistinct (Dict.set text_discrete k v m)
unfolding Dict.set Dict.get
set-IsDistinct k v [] d = (refl, tt)
set-IsDistinct k v ((j, w) ∷ m) (h, d) =
    ground (arith, h, Dict.get-set text_discrete k j v m, set-IsDistinct k v m d)

pub delete-IsDistinct :
    {V : Type 0} (k : Text) (m : List (Text × V))
    → IsDistinct m
    → IsDistinct (Dict.delete text_discrete k m)
unfolding Dict.delete
delete-IsDistinct k [] d = tt
delete-IsDistinct k ((j, w) ∷ m) (h, d) =
    ground (arith, h, Dict.get-delete text_discrete k j m, delete-IsDistinct k m d)

parse_fields-IsDistinct :
    {V : Type 0} (f : Text → Value → Outcome V) (acc : List (Text × V)) (fs : List (Text × Value))
    (m : List (Text × V))
    → IsDistinct acc
    → parse_fields f acc fs ≡ ok m
    → IsDistinct m
unfolding parse_fields
parse_fields-IsDistinct f acc [] m d h = let same : acc ≡ m = cc in subst IsDistinct same d
parse_fields-IsDistinct f acc ((k, v) ∷ fs) m d h = elim (Outcome-cases (f k v)) [
  | inl (e, r) ↦ absurd (ground (arith, r))
  | inr (p, r) ↦
      parse_fields-IsDistinct f (Dict.set text_discrete k p acc) fs m (set-IsDistinct k p acc d)
        (ground (arith, r))
]

parse_fields-All :
    {V : Type 0} (P : V → Type 0) (f : Text → Value → Outcome V) (acc : List (Text × V))
    (fs : List (Text × Value)) (m : List (Text × V))
    → ((k : Text) (v : Value) (p : V) → f k v ≡ ok p → P p)
    → All (λ e. P e.1) acc
    → parse_fields f acc fs ≡ ok m
    → All (λ e. P e.1) m
unfolding parse_fields
parse_fields-All P f acc [] m each a h = let same : acc ≡ m = cc in subst (All (λ e. P e.1)) same a
parse_fields-All P f acc ((k, v) ∷ fs) m each a h = elim (Outcome-cases (f k v)) [
  | inl (e, r) ↦ absurd (ground (arith, r))
  | inr (p, r) ↦
      parse_fields-All P f (Dict.set text_discrete k p acc) fs m each
        (Dict.set-All text_discrete (λ e. P e.1) k p acc (λ j. each k v p r) a) (ground (arith, r))
]

parse_repo-IsDistinct :
    (repo : Text) (v : Value) (m : Repo) → parse_repo repo v ≡ ok m → IsDistinct m
unfolding parse_repo
parse_repo-IsDistinct repo v m h = elim (Option-cases (as_record v)) [
  | inl e ↦ absurd (ground (arith, e))
  | inr (fs, e) ↦ parse_fields-IsDistinct (parse_permission repo) [] fs m tt (ground (arith, e))
]

parse_repos-IsFile : (v : Option Value) (repos : Repos) → parse_repos v ≡ ok repos → IsFile repos
unfolding parse_repos
parse_repos-IsFile none repos h = absurd cc
parse_repos-IsFile (some v) repos h = elim (Option-cases (as_record v)) [
  | inl e ↦ absurd (ground (arith, e))
  | inr (fs, e) ↦
      let run : parse_fields parse_repo [] fs ≡ ok repos = ground (arith, e) in
      record {
        distinct = parse_fields-IsDistinct parse_repo [] fs repos tt run;
        servers = parse_fields-All IsDistinct parse_repo [] fs repos parse_repo-IsDistinct tt run;
      }
]

pub parse-IsFile : (v : Value) (repos : Repos) → parse_permission_file v ≡ ok repos → IsFile repos
unfolding parse_permission_file
parse-IsFile v repos h = elim (Option-cases (as_record v)) [
  | inl e ↦ absurd (ground (arith, e))
  | inr (fs, e) ↦ parse_repos-IsFile (lookup (codes "repos") fs) repos (ground (arith, e))
]
