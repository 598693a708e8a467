-- ===== src/Config/Location/Content.antt =====
-- What a location that `build_location` of src/config/build.rs accepts holds.
use elrond.Base.{
  ok, err, ℕ, ◌+◌, ◌≡◌, refl, sym, subst, ◌∙◌, ◌⊎◌, inl, inr, Bool, true, false, not, ◌&&◌, Option,
  none, some, List, [], ◌∷◌, arith, if◌then◌else◌, Bool-cases, is_some, is_none, unwrap_or, All-of,
  if-intro, option-intro, is_empty, Text, codes, text_eq, ◌>>=◌, IfOk, IfOk-bind, IfOk->>=,
  parse_below, strip_prefix,
}
use elrond.Config.Parser.{Directives, directive, nil, cons}
use elrond.Template.{Segment, parse_template}
use elrond.Config.Location.{
  Settings, TryFilesEntry, Action, Draft, is_content, content_of, try_entries, path_entry,
  status_entry, return_action, proxy_pass, root_action, alias_action, metrics_action,
  try_files_action, Building, or_error, arg1, try_files_of, bad_status, several_contents, Location,
  LocationKind, default_settings,
}
use elrond.Config.Location.Build.{
  build_location, location_directive, put_action, proxy_setting, setting, with_settings,
  location_directives, settle, checked, same,
}

-- how many directives of a block give a location its content
abbrev pub contents : Directives → ℕ
contents nil = 0
contents (cons (directive name _ _ _) ds) = (if is_content name then 1 else 0) + contents ds

-- at least one entry, and a status nowhere but at the end
abbrev pub are_entries : List TryFilesEntry → Bool
are_entries [] = false
are_entries (_ ∷ []) = true
are_entries (path_entry _ ∷ e ∷ es) = are_entries (e ∷ es)
are_entries (status_entry _ ∷ _ ∷ _) = false

-- the action is one that `try_files` can carry out
abbrev pub is_ready : Action → Bool
is_ready (return_action _ _) = true
is_ready (proxy_pass _) = true
is_ready (root_action _) = true
is_ready (alias_action _) = true
is_ready metrics_action = true
is_ready (try_files_action _ entries) = are_entries entries

abbrev taken : Draft → ℕ
taken draft = if is_some draft.action then 1 else 0

abbrev AreTried : Option (List TryFilesEntry) → Type 0
AreTried o = All-of o (λ es. are_entries es ≡ true)

-- every content directive is counted, and what `try_files` has is well formed
abbrev IsDrafted : ℕ → Draft → Type 0
IsDrafted n draft =
    (taken draft ≡ n) × All-of draft.action (λ a. is_ready a ≡ true) × AreTried draft.try_files

abbrev Ready : Building Action → Type 0
Ready r = IfOk r (λ a. is_ready a ≡ true)

content_of_lem : (name : Text) (given : List Text) → Ready (content_of name given)
unfolding content_of
content_of_lem name given =
    if-intro Ready (text_eq name (codes "return")) _ _
      (λ _.
        IfOk->>= _ (arg1 name given) _
          (λ s. IfOk->>= _ (or_error (parse_below 65536 s) (bad_status s)) _ (λ n. refl)))
      (λ _.
        if-intro Ready (text_eq name (codes "proxy_pass")) _ _
          (λ _. IfOk->>= _ (arg1 name given) _ (λ t. refl))
          (λ _.
            if-intro Ready (text_eq name (codes "root")) _ _
              (λ _. IfOk->>= _ (arg1 name given) _ (λ t. refl))
              (λ _.
                if-intro Ready (text_eq name (codes "alias")) _ _
                  (λ _. IfOk->>= _ (arg1 name given) _ (λ t. refl)) (λ _. refl))))

abbrev Tried : Building (List TryFilesEntry) → Type 0
Tried r = IfOk r (λ es. are_entries es ≡ true)

path-onto :
    (t : List Segment) (es : List TryFilesEntry)
    → are_entries es ≡ true
    → are_entries (path_entry t ∷ es) ≡ true
path-onto t [] h = absurd cc
path-onto t (e ∷ es) h = h

try_entry :
    (a : Text) (rest : List Text)
    → ((t : List Segment) → Tried (try_entries rest >>= λ entries. ok (path_entry t ∷ entries)))
    → Tried (try_entries (a ∷ rest))
unfolding try_entries
try_entry a rest h =
    option-intro Tried (strip_prefix a (codes "=")) _ _ (λ _. h (parse_template a))
      (λ code _.
        if-intro Tried (not (is_empty rest)) _ _ (λ _. tt)
          (λ _. IfOk->>= _ (or_error (parse_below 65536 code) (bad_status a)) _ (λ n. refl)))

try_entries-are_entries : (a : Text) (rest : List Text) → Tried (try_entries (a ∷ rest))
try_entries-are_entries a [] = try_entry a [] (λ t. unfold try_entries in refl)
try_entries-are_entries a (b ∷ rest) = try_entry a (b ∷ rest) (λ t.
    IfOk-bind (λ es. are_entries es ≡ true) _ (try_entries (b ∷ rest)) _
      (try_entries-are_entries b rest) (path-onto t))

try_files_of-are_entries : (given : List Text) → Tried (try_files_of given)
unfolding try_files_of
try_files_of-are_entries [] = tt
try_files_of-are_entries (a ∷ []) = tt
try_files_of-are_entries (a ∷ b ∷ rest) = try_entries-are_entries a (b ∷ rest)

put_action-IsDrafted :
    (n : ℕ) (draft : Draft) (a : Action)
    → IsDrafted n draft
    → is_ready a ≡ true
    → IfOk (put_action draft a) (IsDrafted (n + 1))
put_action-IsDrafted n draft a (t, r, f) h = go draft.action t
  where
    go :
        (o : Option Action)
        → (if is_some o then 1 else 0) ≡ n
        → IfOk
            (if is_some o then err several_contents else ok (record draft { action = some a }))
            (IsDrafted (n + 1))
    go none e = (omega (arith, e), h, f)
    go (some b) e = tt

location_directive-IsDrafted :
    (n : ℕ) (draft : Draft) (name : Text) (given : List Text)
    → IsDrafted n draft
    → IfOk
        (location_directive draft name given)
        (IsDrafted (n + (if is_content name then 1 else 0)))
unfolding location_directive
location_directive-IsDrafted n draft name given h = elim (Bool-cases (is_content name)) [
  | inl c ↦ rw c (
      IfOk-bind (λ a. is_ready a ≡ true) _ (content_of name given) _ (content_of_lem name given)
        (λ a r. put_action-IsDrafted n draft a h r))
  | inr c ↦ rw c (unmoved (omega (arith, h.0), h.1, h.2))
]
  where
    unmoved :
        IsDrafted (n + 0) draft
        → IfOk
            (if text_eq name (codes "try_files")
              then (try_files_of given >>= λ entries.
                  ok (record draft { try_files = some entries }))
              else (unwrap_or
                    (proxy_setting name given draft.settings)
                    (setting name given draft.settings)
                  >>= with_settings draft))
            (IsDrafted (n + 0))
    unmoved k =
        if-intro (λ (r : Building Draft). IfOk r (IsDrafted (n + 0)))
          (text_eq name (codes "try_files")) _ _
          (λ _.
            IfOk-bind (λ es. are_entries es ≡ true) _ (try_files_of given) _
              (try_files_of-are_entries given) (λ es w. (k.0, k.1, w)))
          (λ _.
            IfOk->>= _
              (unwrap_or (proxy_setting name given draft.settings)
                (setting name given draft.settings))
              _ (λ s. k))

location_directives-IsDrafted :
    (n : ℕ) (draft : Draft) (ds : Directives)
    → IsDrafted n draft
    → IfOk (location_directives draft ds) (IsDrafted (n + contents ds))
unfolding location_directives
location_directives-IsDrafted n draft nil h = (omega (arith, h.0), h.1, h.2)
location_directives-IsDrafted n draft (cons (directive name given b line) ds) h =
    IfOk-bind (IsDrafted (n + (if is_content name then 1 else 0))) _
      (location_directive draft name given) _ (location_directive-IsDrafted n draft name given h)
      (λ d k.
        subst (λ m. IfOk (location_directives d ds) (IsDrafted m)) (omega arith)
          (location_directives-IsDrafted (n + (if is_content name then 1 else 0)) d ds k))

-- What is built from a block with these directives, where the server has this root.
pub record IsBuilt (dirs : Directives) (server_root : Option Text) (l : Location) : Type 0 where
  pub one_content : (contents dirs ≡ 1) ⊎ ((contents dirs ≡ 0) × (is_some server_root ≡ true))
  pub ready : is_ready l.action ≡ true
  pub user_file :
      (l.settings.auth_basic_realm ≡ none) ⊎ (is_some l.settings.auth_basic_user_file ≡ true)
  pub certificate :
      is_some l.settings.proxy_ssl_certificate ≡ is_some l.settings.proxy_ssl_certificate_key

settle_lem :
    (tried : Option (List TryFilesEntry)) (action : Option Action) (server_root : Option Text)
    (n : ℕ)
    → (if is_some action then 1 else 0) ≡ n
    → All-of action (λ a. is_ready a ≡ true)
    → AreTried tried
    → IfOk
        (settle tried action server_root)
        (λ a. (is_ready a ≡ true) × ((n ≡ 1) ⊎ ((n ≡ 0) × (is_some server_root ≡ true))))
unfolding settle
settle_lem (some es) (some (root_action dir)) root n t r f = (f, inl (sym t))
settle_lem (some es) (some (return_action _ _)) root n t r f = tt
settle_lem (some es) (some (proxy_pass _)) root n t r f = tt
settle_lem (some es) (some (alias_action _)) root n t r f = tt
settle_lem (some es) (some metrics_action) root n t r f = tt
settle_lem (some es) (some (try_files_action _ _)) root n t r f = tt
settle_lem (some es) none (some dir) n t r f = (f, inr (sym t, refl))
settle_lem (some es) none none n t r f = tt
settle_lem none (some a) root n t r f = (r, inl (sym t))
settle_lem none none (some dir) n t r f = (refl, inr (sym t, refl))
settle_lem none none none n t r f = tt

not_alone :
    (realm file : Option Text)
    → (is_some realm && is_none file) ≡ false
    → (realm ≡ none) ⊎ (is_some file ≡ true)
not_alone none file h = inl refl
not_alone (some _) (some _) h = inr refl
not_alone (some _) none h = absurd cc

same-eq : (b c : Bool) → not (same b c) ≡ false → b ≡ c
same-eq true true h = refl
same-eq false false h = refl
same-eq true false h = absurd cc
same-eq false true h = absurd cc

checked-pairs :
    (s : Settings)
    → IfOk (checked s) (λ s'.
      ((s'.auth_basic_realm ≡ none) ⊎ (is_some s'.auth_basic_user_file ≡ true))
      × (is_some s'.proxy_ssl_certificate ≡ is_some s'.proxy_ssl_certificate_key))
unfolding checked
checked-pairs s =
    let Paired : Building Settings → Type 0 = λ r. IfOk r (λ s'.
      ((s'.auth_basic_realm ≡ none) ⊎ (is_some s'.auth_basic_user_file ≡ true))
      × (is_some s'.proxy_ssl_certificate ≡ is_some s'.proxy_ssl_certificate_key)) in
    if-intro Paired (is_some s.auth_basic_realm && is_none s.auth_basic_user_file) _ _ (λ _. tt)
      (λ a.
        if-intro Paired
          (not (same (is_some s.proxy_ssl_certificate) (is_some s.proxy_ssl_certificate_key))) _ _
          (λ _. tt) (λ c. (not_alone s.auth_basic_realm s.auth_basic_user_file a, same-eq _ _ c)))

-- A location that is accepted has one directive that gives it its content, or none and the root of
-- its server; the entries of its `try_files` are some, with no status but at the end; a realm has a
-- file of users; and a certificate for the upstream has a key. So any other block is refused.
pub build_location-IsBuilt :
    (pattern : Text) (kind : LocationKind) (dirs : Directives) (server_root : Option Text)
    → IfOk (build_location pattern kind dirs server_root) (IsBuilt dirs server_root)
unfolding build_location
build_location-IsBuilt pattern kind dirs server_root =
    let empty : Draft = record { action = none; try_files = none; settings = default_settings } in
    IfOk-bind (IsDrafted (0 + contents dirs)) (IsBuilt dirs server_root)
      (location_directives empty dirs) _ (location_directives-IsDrafted 0 empty dirs (refl, tt, tt))
      (λ draft h.
        IfOk-bind
          (λ a.
            (is_ready a ≡ true)
            × ((contents dirs ≡ 1) ⊎ ((contents dirs ≡ 0) × (is_some server_root ≡ true))))
          (IsBuilt dirs server_root) (settle draft.try_files draft.action server_root) _
          (settle_lem draft.try_files draft.action server_root (contents dirs) (h.0 ∙ omega arith)
            h.1 h.2)
          (λ action r.
            IfOk-bind _ (IsBuilt dirs server_root) (checked draft.settings) _
              (checked-pairs draft.settings)
              (λ settings c. record {
                one_content = r.1;
                ready = r.0;
                user_file = c.0;
                certificate = c.1;
              })))
