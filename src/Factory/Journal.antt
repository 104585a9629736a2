-- ===== src/Factory/Journal.antt =====
-- The journal and the registration of a package, as the factory's handlers write them.
use omarchy_cli.Base.{Bool, List, String, Text, codes, none, some, str_eq, update, ℕ}
use omarchy_cli.Factory.Rows.{Arch, Event, Level, Registration, Stage}

abbrev pub arch_text : Arch → Text
arch_text Arch.x86_64 = codes "x86_64"
arch_text Arch.aarch64 = codes "aarch64"

-- `event` of worker/src/routes/factory.ts.
unfoldable pub factory_event : String → Level → Text → Event
factory_event kind status summary = record {
  kind = kind;
  ring = none;
  source = some "factory";
  status = status;
  summary = summary;
}

abbrev pub is_named : String → Registration → Bool
is_named name p = str_eq p.name name

-- UPDATE factory_packages SET status = ?, detail = ?, updated_at = now WHERE name = ?
unfoldable pub set_stage : String → Stage → Text → ℕ → List Registration → List Registration
set_stage name stage detail now =
    update (is_named name)
      (λ p. record p { status = stage; detail = some detail; updated_at = now })

-- The same for the detail alone.
unfoldable pub set_detail : String → Text → ℕ → List Registration → List Registration
set_detail name detail now =
    update (is_named name) (λ p. record p { detail = some detail; updated_at = now })

abbrev pub arch_name : Arch → String
arch_name Arch.x86_64 = "x86_64"
arch_name Arch.aarch64 = "aarch64"
