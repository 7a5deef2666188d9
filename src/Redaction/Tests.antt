-- ===== src/Redaction/Tests.antt =====
-- A catalog whose host and project refer to secrets.
use spawnea.Prelude.{ℕ, ◌≡◌, refl, true, false, Option, none, some, [], ◌∷◌}
use spawnea.Prelude.Units.{Text, units, starts_with, is_white, trim, trim_start, trim_end}
use spawnea.Redaction.{Catalog, is_one_password_reference, number, sanitize_catalog_for_renderer}
use spawnea.Redaction.Secrets.{IsPlainCatalog, sanitize_catalog_for_renderer-IsPlainCatalog}

abbrev as_it_is : Text → Text
as_it_is text = text

abbrev secret : Text
secret = units "op://vault/item/host"

references :
    (is_one_password_reference secret ≡ true)
    × (is_one_password_reference (units "op://vault/host") ≡ false)
    × (is_one_password_reference (units "op://vault/../host") ≡ false)
unfolding is_one_password_reference starts_with is_white trim trim_start trim_end
references = (refl, refl, refl)

abbrev catalog : Option (Catalog ℕ)
catalog = some (record {
  api = none;
  hosts =
      (
        units "h1",
        record {
          ssh =
              some
                (record { target = units "10.0.0.1"; user = some secret; port = some (number 22) });
          projects = (units "p1", record { path = secret; others = 1 }) ∷ [];
          others = 2;
        },
      )
      ∷ [];
  others = 3;
})

sanitize_catalog_for_renderer-IsPlainCatalog_example :
    IsPlainCatalog (sanitize_catalog_for_renderer as_it_is catalog)
sanitize_catalog_for_renderer-IsPlainCatalog_example =
    sanitize_catalog_for_renderer-IsPlainCatalog as_it_is catalog
