-- ===== src/Factory/Tests.antt =====
-- Comparisons on the columns that are data types, and the SQL tests `status IN (…)`.
use omarchy_cli.Base.{
  ℕ, String, Bool, true, false, ◌||◌, Option, none, some, List, [], ◌∷◌, ◌==◌, str_eq,
}
use omarchy_cli.Factory.Rows.{Arch, Kind, Trust, Status, Task}

abbrev pub arch_eq : Arch → Arch → Bool
arch_eq Arch.x86_64 Arch.x86_64 = true
arch_eq Arch.aarch64 Arch.aarch64 = true
arch_eq _ _ = false

abbrev pub kind_number : Kind → ℕ
kind_number Kind.build = 0
kind_number Kind.sync = 1
kind_number Kind.promote = 2
kind_number Kind.rollback = 3
kind_number Kind.render = 4
kind_number Kind.health = 5
kind_number Kind.security = 6
kind_number Kind.metrics = 7
kind_number Kind.gc = 8
kind_number Kind.enqueue = 9
kind_number Kind.audit = 10
kind_number Kind.verify = 11
kind_number Kind.relayout = 12
kind_number Kind.publish = 13

abbrev pub kind_eq : Kind → Kind → Bool
kind_eq a b = kind_number a == kind_number b

abbrev pub kind_in : Kind → List Kind → Bool
kind_in k [] = false
kind_in k (j ∷ js) = kind_eq k j || kind_in k js

abbrev pub is_project : Trust → Bool
is_project Trust.project = true
is_project Trust.community = false

abbrev pub trust_eq : Trust → Trust → Bool
trust_eq Trust.project Trust.project = true
trust_eq Trust.community Trust.community = true
trust_eq _ _ = false

abbrev pub is_queued : Status → Bool
is_queued Status.queued = true
is_queued _ = false

abbrev pub is_leased : Status → Bool
is_leased Status.leased = true
is_leased _ = false

abbrev pub is_staged : Status → Bool
is_staged Status.staged = true
is_staged _ = false

-- status IN ('queued', 'leased')
abbrev pub is_open : Status → Bool
is_open Status.queued = true
is_open Status.leased = true
is_open _ = false

-- `column = ?` on a column that may be NULL.
abbrev pub holds_name : Option String → String → Bool
holds_name none s = false
holds_name (some o) s = str_eq o s

abbrev pub holds_number : Option ℕ → ℕ → Bool
holds_number none n = false
holds_number (some m) n = m == n

abbrev pub has_id : ℕ → Task → Bool
has_id n t = t.id == n
