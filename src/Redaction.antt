-- ===== src/Redaction.antt =====
-- apps/desktop/src/main/catalog-redaction.ts, with isOnePasswordReference and
-- createCatalogProjectPathLocator of packages/domain/src/secret-reference.ts: the catalog as the
-- windows see it. `encodeURIComponent` and `maskSensitiveString` are arguments, and what the code
-- copies without a look at it is one field.
pub mod Secrets
mod Tests
use spawnea.Prelude.{
  ℕ, Bool, true, false, ◌&&◌, ◌||◌, not, Option, none, some, List, [], ◌∷◌, ◌++◌, map, ltb, leb,
  ◌==◌, if◌then◌else◌, any, all, length, drop,
}
use spawnea.Prelude.Units.{Text, units, text_eq, starts_with, trim}
use spawnea.Prelude.TextMaps.{TextMap}

-- `text.split('/')`
pub components_of : Text → List Text
components_of [] = [] ∷ []
components_of (c ∷ s) =
    let parts = components_of s in
    if c == b'/'
    then [] ∷ parts
    else (elim parts [ [] ↦ (c ∷ []) ∷ [] | part ∷ more ↦ (c ∷ part) ∷ more ])

is_control_character : ℕ → Bool
is_control_character c = leb c 0x1f || c == 0x7f

-- A part of a reference that is neither blank nor a dot or two.
is_component : Text → Bool
is_component part =
    not (text_eq (trim part) [])
    && not (text_eq part (units "."))
    && not (text_eq part (units ".."))

pub is_one_password_reference : Text → Bool
unfolding components_of is_control_character is_component
is_one_password_reference value =
    let components = components_of (drop 5 value) in
    starts_with (units "op://") value
    && leb (length value) 2048
    && not (any (λ c. is_control_character c || c == b'?' || c == b'#') value)
    && leb 3 (length components)
    && leb (length components) 4
    && all is_component components

pub data Port : Type 0 where
  number : ℕ → Port
  reference : Text → Port

pub record Ssh : Type 0 where
  pub target : Text
  pub user : Option Text
  pub port : Option Port

module _ (Other : Type 0) where
  pub record Project : Type 0 where
    pub path : Text
    pub others : Other

  pub record CatalogHost : Type 0 where
    pub ssh : Option Ssh
    pub projects : TextMap Project
    pub others : Other

  -- The part of the configuration of the API that the windows see, and the rest of it.
  pub record Api : Type 0 where
    pub is_enabled : Bool
    pub port : ℕ
    pub secrets : Option Other

  pub record Catalog : Type 0 where
    pub api : Option Api
    pub hosts : TextMap CatalogHost
    pub others : Other

  pub record CatalogError : Type 0 where
    pub message : Text
    pub others : Other

  -- `CatalogState` and `CatalogReloadResult`
  pub record CatalogState : Type 0 where
    pub catalog : Option Catalog
    pub errors : Option (List CatalogError)
    pub others : Other

abbrev pub is_reference_port : Option Port → Bool
is_reference_port (some (reference value)) = is_one_password_reference value
is_reference_port _ = false

-- An absent user and the empty one are both falsy.
abbrev pub is_reference_user : Option Text → Bool
is_reference_user none = false
is_reference_user (some user) = not (text_eq user []) && is_one_password_reference user

pub is_credential_backed : Ssh → Bool
is_credential_backed ssh =
    is_one_password_reference ssh.target || is_reference_user ssh.user || is_reference_port ssh.port

pub sanitize_user : Option Text → Option Text
sanitize_user none = none
sanitize_user (some user) =
    if not (text_eq user []) && not (is_one_password_reference user) then some user else none

pub sanitize_port : Option Port → Option Port
sanitize_port (some (number n)) = some (number n)
sanitize_port _ = none

pub sanitize_ssh : Ssh → Ssh
unfolding is_credential_backed sanitize_user sanitize_port
sanitize_ssh ssh = record {
  target = if is_credential_backed ssh then units "1Password-backed" else ssh.target;
  user = sanitize_user ssh.user;
  port = sanitize_port ssh.port;
}

module _ (encode : Text → Text) where
  pub create_catalog_project_path_locator : Text → Text → Text
  create_catalog_project_path_locator host project =
      units "catalog-project://" ++ encode host ++ units "/" ++ encode project

  pub sanitize_path : Text → Text → Text → Text
  unfolding create_catalog_project_path_locator
  sanitize_path host project path =
      if is_one_password_reference path
      then create_catalog_project_path_locator host project
      else path

module _ {Other : Type 0} (encode : Text → Text) where
  pub sanitize_projects : Text → TextMap (Project Other) → TextMap (Project Other)
  unfolding sanitize_path
  sanitize_projects host [] = []
  sanitize_projects host ((id, project) ∷ projects) =
      (id, record project { path = sanitize_path encode host id project.path })
      ∷ sanitize_projects host projects

  pub sanitize_hosts : TextMap (CatalogHost Other) → TextMap (CatalogHost Other)
  unfolding sanitize_ssh sanitize_projects
  sanitize_hosts [] = []
  sanitize_hosts ((id, host) ∷ hosts) =
      (
        id,
        record host {
          ssh = elim host.ssh [ none ↦ none | some ssh ↦ some (sanitize_ssh ssh) ];
          projects = sanitize_projects id host.projects;
        },
      )
      ∷ sanitize_hosts hosts

  pub sanitize_catalog_for_renderer : Option (Catalog Other) → Option (Catalog Other)
  unfolding sanitize_hosts
  sanitize_catalog_for_renderer none = none
  sanitize_catalog_for_renderer (some catalog) = some (record catalog {
    api = elim catalog.api [ none ↦ none | some api ↦ some (record api { secrets = none }) ];
    hosts = sanitize_hosts catalog.hosts;
  })

  -- The state, or the result of a reload, which have the same fields here.
  pub sanitize_catalog_state_for_renderer : (Text → Text) → CatalogState Other → CatalogState Other
  unfolding sanitize_catalog_for_renderer
  sanitize_catalog_state_for_renderer mask state = record state {
    catalog = sanitize_catalog_for_renderer state.catalog;
    errors = elim state.errors [
      | none ↦ none
      | some errors ↦ some (
          map (λ (error : CatalogError Other). record error { message = mask error.message })
            errors)
    ];
  }
