-- ===== src/Release/Create.antt =====
-- Creating a release: handleCreateRelease of worker/src/routes/releases.ts. An exception of
-- ensureCheckpoint is the status 500.
use omarchy_cli.Base.{
  Bool, List, Option, String, Text, [], ◌∷◌, ◌==◌, if◌then◌else◌, ℕ, true, false, first, none, some,
  select, str_eq, exists, ltb, or_else, not, ◌&&◌, ◌||◌,
}
use omarchy_cli.Factory.Rows.{Arch}
use omarchy_cli.Factory.Tests.{arch_eq}
use omarchy_cli.Factory.Enqueue.{repo_arch}
use omarchy_cli.Factory.Reply.{Reply, answer, or_refuse, ◌>>=◌}
use omarchy_cli.Release.Selection.{union, holds}
use omarchy_cli.Release.Rows.{Package, Pool, Release, Ring}
use omarchy_cli.Release.Members.{is_release, ring_head, release_members, ring_members}

pub record CreateRelease : Type 0 where
  pub ring : String
  pub from_ring : Option String
  pub from_release_id : Option ℕ
  pub add : Option (List String)
  pub remove : Option (List String)
  pub remove_from : Option (List (String × String))
  pub remove_arch : Option String
  pub arch : Option String
  pub note : Option Text

-- Which ring a text names (isRing of worker/src/index.ts).
unfoldable pub ring_of : String → Option Ring
ring_of s =
    if str_eq s "edge"
    then some Ring.edge
    else if str_eq s "rc"
    then some Ring.rc
    else if str_eq s "stable"
    then some Ring.stable
    else none

-- The release that the selection starts from, where the request names one.
unfoldable pub source_release : CreateRelease → Pool → Reply (Option Release)
unfolding ring_of ring_head first
source_release b st = elim b.from_release_id [
  | some id ↦ (do r ← or_refuse (first (is_release id) st.releases) 404; answer (some r))
  | none ↦ elim b.from_ring [
    | none ↦ answer none
    | some name ↦ (do
      ring ← or_refuse (ring_of name) 400
      r ← or_refuse (ring_head ring st) 409
      answer (some r))
  ]
]

-- An architecture that may be left out.
unfoldable pub arch_param : Option String → Reply (Option Arch)
unfolding repo_arch
arch_param none = answer none
arch_param (some s) = do a ← or_refuse (repo_arch s) 400; answer (some a)

-- `? IS NULL OR repo_arch = ?`
abbrev pub in_scope : Option Arch → Package → Bool
in_scope none p = true
in_scope (some a) p = arch_eq a p.repo_arch

-- The ids of the objects to add, each indexed in the scope.
unfoldable pub added_ids : List String → Option Arch → List Package → Option (List ℕ)
unfolding first
added_ids [] scope packages = some []
added_ids (sha ∷ more) scope packages =
    let rest = added_ids more scope packages in
    elim (first (λ p. str_eq sha p.sha256 && in_scope scope p) packages) [
      | none ↦ none
      | some p ↦ elim rest [ none ↦ none | some ids ↦ some (p.id ∷ ids) ]
    ]

-- JOIN packages p ON p.id = package_id WHERE test p
unfoldable pub joins : List Package → (Package → Bool) → ℕ → Bool
unfolding first
joins packages test id = elim (first (λ p. p.id == id) packages) [ none ↦ false | some p ↦ test p ]

-- One architecture from the source, the other as the ring serves it.
unfoldable pub mixed : Option Arch → List Package → List ℕ → List ℕ → List ℕ
unfolding joins union
mixed none packages source own = source
mixed (some a) packages source own =
    union (select (joins packages (λ p. arch_eq p.repo_arch a)) source)
      (select (joins packages (λ p. not (arch_eq p.repo_arch a))) own)

-- The selection that the release starts from: the ring's own, or the source's.
unfoldable pub base_members :
    Option Release → Option Release → Option Arch → Ring → Pool → Option (List ℕ × Pool)
unfolding mixed ring_members release_members
base_members none none only ring st = some ([], st)
base_members none (some parent) only ring st = some (ring_members ring st, st)
base_members (some source) none only ring st = release_members source.id st
base_members (some source) (some parent) only ring st =
    if source.id == parent.id
    then some (ring_members ring st, st)
    else (elim (release_members source.id st) [
      | none ↦ none
      | some (ids, st') ↦ some (mixed only st'.packages ids (ring_members ring st'), st')
    ])

-- A row that the request drops, from every source or from one, in its scope.
unfoldable pub is_removed : CreateRelease → Option Arch → Package → Bool
is_removed b scope p =
    (exists (str_eq p.name) (or_else b.remove [])
      || exists (λ (source, name). str_eq p.name name && str_eq p.source source)
          (or_else b.remove_from []))
    && in_scope scope p

-- A row of which an added package is another build.
unfoldable pub is_replaced : List ℕ → List Package → Package → Bool
unfolding holds
is_replaced adds packages p =
    exists
      (λ q.
        holds q.id adds
        && str_eq q.name p.name
        && arch_eq q.repo_arch p.repo_arch
        && str_eq q.source p.source)
      packages

unfoldable pub target : CreateRelease → Option Arch → List ℕ → List Package → List ℕ → List ℕ
unfolding is_removed is_replaced joins union
target b scope adds packages base =
    union
      (select
        (joins packages (λ p. not (is_removed b scope p) && not (is_replaced adds packages p)))
        base)
      adds

-- COALESCE(MAX(seq), 0) WHERE test
unfoldable pub max_seq : (Release → Bool) → List Release → ℕ
max_seq test [] = 0
max_seq test (r ∷ rs) =
    let rest = max_seq test rs in if test r then (if ltb rest r.seq then r.seq else rest) else rest
