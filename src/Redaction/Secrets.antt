-- ===== src/Redaction/Secrets.antt =====
-- No reference to a secret is left in what the windows see.
use spawnea.Prelude.{
  ◌≡◌, refl, false, ◌&&◌, not, Option, none, some, [], ◌∷◌, All, arith, each_branch,
}
use spawnea.Prelude.Units.{Text, units, starts_with, text_eq}
use spawnea.Prelude.TextMaps.{TextMap}
use spawnea.Redaction.{
  Catalog, CatalogHost, Project, Ssh, Port, number, reference, is_one_password_reference,
  is_credential_backed, sanitize_user, sanitize_port, sanitize_ssh,
  create_catalog_project_path_locator, sanitize_path, sanitize_projects, sanitize_hosts,
  sanitize_catalog_for_renderer,
}

-- A text that is no reference to a secret.
abbrev pub IsPlain : Text → Type 0
IsPlain text = is_one_password_reference text ≡ false

abbrev pub IsPlainUser : Option Text → Type 0
IsPlainUser none = Unit
IsPlainUser (some user) = IsPlain user

abbrev pub IsPlainPort : Option Port → Type 0
IsPlainPort (some (reference value)) = IsPlain value
IsPlainPort _ = Unit

-- The parts of a host's access that may hold references.
abbrev pub IsPlainSsh : Option Ssh → Type 0
IsPlainSsh none = Unit
IsPlainSsh (some ssh) = IsPlain ssh.target × IsPlainUser ssh.user × IsPlainPort ssh.port

abbrev pub ArePlainProjects : {Other : Type 0} → TextMap (Project Other) → Type 0
ArePlainProjects projects = All (λ (id, project). IsPlain project.path) projects

-- In each host, and in each project of it.
abbrev pub ArePlainHosts : {Other : Type 0} → TextMap (CatalogHost Other) → Type 0
ArePlainHosts hosts = All (λ (id, host). IsPlainSsh host.ssh × ArePlainProjects host.projects) hosts

abbrev pub IsPlainCatalog : {Other : Type 0} → Option (Catalog Other) → Type 0
IsPlainCatalog none = Unit
IsPlainCatalog (some catalog) = ArePlainHosts catalog.hosts

masked-IsPlain : IsPlain (units "1Password-backed")
unfolding is_one_password_reference starts_with
masked-IsPlain = refl

sanitize_user-IsPlainUser : (user : Option Text) → IsPlainUser (sanitize_user user)
unfolding sanitize_user
sanitize_user-IsPlainUser none = tt
sanitize_user-IsPlainUser (some user) =
    each_branch IsPlainUser (not (text_eq user []) && not (is_one_password_reference user))
      (some user) none (λ kept. ground (arith, kept)) (λ dropped. tt)

sanitize_port-IsPlainPort : (port : Option Port) → IsPlainPort (sanitize_port port)
unfolding sanitize_port
sanitize_port-IsPlainPort none = tt
sanitize_port-IsPlainPort (some (number n)) = tt
sanitize_port-IsPlainPort (some (reference value)) = tt

sanitize_ssh-IsPlainSsh : (ssh : Ssh) → IsPlainSsh (some (sanitize_ssh ssh))
unfolding sanitize_ssh is_credential_backed
sanitize_ssh-IsPlainSsh ssh = (
  each_branch IsPlain (is_credential_backed ssh) (units "1Password-backed") ssh.target
      (λ backed. masked-IsPlain) (λ open_one. ground (arith, open_one)),
  sanitize_user-IsPlainUser ssh.user,
  sanitize_port-IsPlainPort ssh.port,
)

module _ (encode : Text → Text) where
  sanitize_path-IsPlain :
      (host project path : Text) → IsPlain (sanitize_path encode host project path)
  unfolding sanitize_path create_catalog_project_path_locator is_one_password_reference starts_with
  sanitize_path-IsPlain host project path =
      each_branch IsPlain (is_one_password_reference path) _ path (λ secret. refl) (λ plain. plain)

module _ {Other : Type 0} (encode : Text → Text) where
  sanitize_projects-ArePlain :
      (host : Text) (projects : TextMap (Project Other))
      → ArePlainProjects (sanitize_projects encode host projects)
  unfolding sanitize_projects
  sanitize_projects-ArePlain host [] = tt
  sanitize_projects-ArePlain host ((id, project) ∷ projects) =
      (sanitize_path-IsPlain encode host id project.path, sanitize_projects-ArePlain host projects)

  sanitize_hosts-ArePlain :
      (hosts : TextMap (CatalogHost Other)) → ArePlainHosts (sanitize_hosts encode hosts)
  unfolding sanitize_hosts
  sanitize_hosts-ArePlain [] = tt
  sanitize_hosts-ArePlain ((id, host) ∷ hosts) = (
    (ssh_of host.ssh, sanitize_projects-ArePlain id host.projects),
    sanitize_hosts-ArePlain hosts,
  )
    where
      ssh_of :
          (ssh : Option Ssh)
          → IsPlainSsh (elim ssh [ none ↦ none | some s ↦ some (sanitize_ssh s) ])
      ssh_of none = tt
      ssh_of (some ssh) = sanitize_ssh-IsPlainSsh ssh

  -- Whatever the catalog: in what the windows get of it, no target, user or port of a host and no
  -- path of a project is a reference to a secret.
  pub sanitize_catalog_for_renderer-IsPlainCatalog :
      (catalog : Option (Catalog Other))
      → IsPlainCatalog (sanitize_catalog_for_renderer encode catalog)
  unfolding sanitize_catalog_for_renderer
  sanitize_catalog_for_renderer-IsPlainCatalog none = tt
  sanitize_catalog_for_renderer-IsPlainCatalog (some catalog) =
      sanitize_hosts-ArePlain catalog.hosts
