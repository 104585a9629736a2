-- ===== src/Governance.antt =====
-- Who maintains the pool: worker/src/governance.ts. The parser of TOML (smol-toml), the order of
-- names (localeCompare) and the digest are not the repository's: a parsed file is an argument,
-- and so are the sort and the hash.
pub mod Trust
pub mod Table
use omarchy_cli.Base.{
  Bool, List, Option, String, Text, [], codes, delete, exists, false, if◌then◌else◌, leb, length,
  none, not, or_else, some, str_eq, true, update, ℕ, ◌&&◌, ◌++◌, ◌==◌, ◌||◌, ◌∷◌,
}
use omarchy_cli.Factory.Rows.{Contributor, Event, Level, Role}
use omarchy_cli.Factory.Enqueue.{is_empty}
use omarchy_cli.Factory.Tests.{holds_name}

-- An entry of a list of the file: a text, or any other value.
pub data Entry : Type 0 where
  written : String → Entry
  unfit : Entry

-- A value of the file: a list, or any other value.
pub data Toml : Type 0 where
  list : List Entry → Toml
  other : Toml

-- The parsed file: `maintainers` where it is given, and `groups` where it is a table, with each
-- group's `maintainers`.
pub record Document : Type 0 where
  pub maintainers : Option Toml
  pub groups : Option (List (Option Toml))

abbrev is_alnum : ℕ → Bool
is_alnum c = (leb b'A' c && leb c b'Z') || (leb b'a' c && leb c b'z') || (leb b'0' c && leb c b'9')

login_tail : Text → Bool
login_tail [] = true
login_tail (c ∷ s) = (is_alnum c || c == b'-') && login_tail s

-- `/^[A-Za-z0-9](?:[A-Za-z0-9-]{0,38})$/`
unfoldable pub is_login_text : Text → Bool
unfolding login_tail
is_login_text [] = false
is_login_text (c ∷ s) = is_alnum c && leb (length s) 38 && login_tail s

-- The logins of a list; nothing where an entry is no login.
unfoldable pub logins_of : List Entry → Option (List String)
unfolding is_login_text
logins_of [] = some []
logins_of (Entry.written s ∷ more) =
    let rest = logins_of more in
    if is_login_text (codes s)
    then (elim rest [ none ↦ none | some names ↦ some (s ∷ names) ])
    else none
logins_of (Entry.unfit ∷ more) = none

unfoldable pub list_logins : Option Toml → Option (List String)
unfolding logins_of
list_logins (some (Toml.list items)) = logins_of items
list_logins _ = none

-- The logins of every list, one after the other.
unfoldable pub all_logins : List (Option Toml) → Option (List String)
unfolding list_logins
all_logins [] = some []
all_logins (l ∷ more) =
    let rest = all_logins more in
    elim (list_logins l) [
      | none ↦ none
      | some names ↦ elim rest [ none ↦ none | some others ↦ some (names ++ others) ]
    ]

-- The lists that the file gives: its own, or the older form's, one a group.
unfoldable pub lists_of : Document → List (Option Toml)
lists_of doc = elim doc.maintainers [ some l ↦ some l ∷ [] | none ↦ or_else doc.groups [] ]

-- A set keeps the first of equal names.
unfoldable pub distinct_names : List String → List String
unfolding delete
distinct_names [] = []
distinct_names (s ∷ more) = s ∷ delete (str_eq s) (distinct_names more)

-- `parseGovernance`, of the parsed file: nothing where it throws.
unfoldable pub parse_governance : (List String → List String) → Document → Option (List String)
unfolding lists_of all_logins distinct_names
parse_governance sort doc = elim (lists_of doc) [
  | [] ↦ none
  | l ∷ more ↦ elim (all_logins (l ∷ more)) [
    | none ↦ none
    | some names ↦ if is_empty names then none else some (sort (distinct_names names))
  ]
]

-- A row of factory_maintainers.
pub record Maintainer : Type 0 where
  pub login : String
  pub since : ℕ

-- What governance writes: the list as last applied, its digest, the roles and the journal.
pub record Roles : Type 0 where
  pub maintainers : List Maintainer
  pub governance_sha256 : Option String
  pub contributors : List Contributor
  pub events : List Event

unfoldable pub listed : String → List String → Bool
unfolding exists
listed login names = exists (str_eq login) names

-- INSERT OR IGNORE INTO factory_maintainers (login) VALUES (?)
unfoldable pub insert_maintainer : String → ℕ → List Maintainer → List Maintainer
unfolding exists
insert_maintainer login now rows =
    if exists (λ m. str_eq m.login login) rows
    then rows
    else (record { login = login; since = now }) ∷ rows

unfoldable pub insert_maintainers : List String → ℕ → List Maintainer → List Maintainer
unfolding insert_maintainer
insert_maintainers [] now rows = rows
insert_maintainers (s ∷ more) now rows = insert_maintainers more now (insert_maintainer s now rows)

-- `roleFor`
unfoldable pub role_for : String → List Maintainer → Role
unfolding exists
role_for login rows =
    if exists (λ m. str_eq m.login login) rows then Role.maintainer else Role.contributor

abbrev pub role_eq : Role → Role → Bool
role_eq Role.maintainer Role.maintainer = true
role_eq Role.contributor Role.contributor = true
role_eq _ _ = false

abbrev role_text : Role → Text
role_text Role.maintainer = codes "maintainer"
role_text Role.contributor = codes "contributor"

unfoldable pub role_event : String → Role → Event
role_event login role = record {
  kind = "role";
  ring = none;
  source = some "factory";
  status = Level.ok;
  summary = codes login ++ codes " is " ++ role_text role ++ codes " (factory/MAINTAINERS.toml)";
}

abbrev pub listed_role : String → List String → Role
listed_role login names = if listed login names then Role.maintainer else Role.contributor

-- One registered contributor: the role is written where it is another one, with a line for it.
unfoldable pub apply_role : List String → Contributor → Roles → Roles
unfolding role_event update listed
apply_role names p st =
    let role = listed_role p.login names in
    if role_eq p.role role then st else record st {
      contributors =
          update (λ c. str_eq c.login p.login) (λ c. record c { role = role }) st.contributors;
      events = role_event p.login role ∷ st.events;
    }

unfoldable pub apply_roles : List String → List Contributor → Roles → Roles
unfolding apply_role
apply_roles names [] st = st
apply_roles names (p ∷ more) st = apply_roles names more (apply_role names p st)

-- `applyGovernance`
unfoldable pub apply_governance : List String → String → ℕ → Roles → Roles
unfolding insert_maintainers apply_roles delete listed
apply_governance names hash now st =
    let kept = delete (λ m. not (listed m.login names)) st.maintainers in
    apply_roles names st.contributors
      (record st { maintainers = insert_maintainers names now kept; governance_sha256 = some hash })

-- `syncGovernance`, of the file that was fetched: nothing where the parser throws.
unfoldable pub sync_governance :
    (List String → List String) → Option Document → String → ℕ → Roles → Option Roles
unfolding parse_governance apply_governance
sync_governance sort doc hash now st =
    if holds_name st.governance_sha256 hash then some st else (elim doc [
      | none ↦ none
      | some d ↦ elim (parse_governance sort d) [
        | none ↦ none
        | some names ↦ some (apply_governance names hash now st)
      ]
    ])
