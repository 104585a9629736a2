-- ===== src/Token/Scopes.antt =====
-- The scopes of a task's token: scopesFor of worker/src/jobtoken.ts.
use omarchy_cli.Base.{
  Bool, List, Option, String, Text, [], codes, decimal, if◌then◌else◌, is_some, none, some, str_eq,
  ℕ, ◌++◌, ◌∷◌,
}
use omarchy_cli.Factory.Rows.{Kind, Params, Source, Trust, Value, param}

-- `typeof params[k] === "string" ? params[k] : d`
abbrev text_or : String → Option Value → String
text_or d (some (Value.str s)) = s
text_or d _ = d

-- `ring` of the parameters, edge when there is none.
unfoldable pub ring_of : Params → String
ring_of params = text_or "edge" (param "ring" params)

release_scope : String → Text
release_scope ring = codes "release:" ++ codes ring

artifacts_scope : String → Text
artifacts_scope ring = codes "artifacts:*:" ++ codes ring

-- The staging area of the task that the parameters name, a number or a text.
staging_of : Option Value → List Text
staging_of (some (Value.num n)) = (codes "staging:" ++ decimal n) ∷ []
staging_of (some (Value.str s)) = (codes "staging:" ++ codes s) ∷ []
staging_of _ = []

-- A set of rings keeps the order of insertion.
add_ring : List String → String → List String
add_ring [] r = r ∷ []
add_ring (q ∷ qs) r = if str_eq q r then q ∷ qs else q ∷ add_ring qs r

rings_named : List String → List Source → List String
unfolding add_ring
rings_named rings [] = rings
rings_named rings (src ∷ rest) = rings_named (add_ring rings src.ring) rest

sync_rings : Params → List String
unfolding ring_of rings_named
sync_rings params = elim (param "sources" params) [
  | some v ↦ elim v [
    | Value.sources list ↦ rings_named (ring_of params ∷ []) list
    | _ ↦ ring_of params ∷ []
  ]
  | none ↦ ring_of params ∷ []
]

ring_scopes : List String → List Text
unfolding release_scope artifacts_scope
ring_scopes [] = []
ring_scopes (r ∷ rs) = release_scope r ∷ artifacts_scope r ∷ ring_scopes rs

-- `params.review !== undefined`
abbrev pub is_review : Params → Bool
is_review params = is_some (param "review" params)

-- What the kind of the task adds to its own scope and the journal's.
unfoldable pub kind_scopes : Kind → ℕ → Trust → Params → List Text
unfolding ring_of release_scope artifacts_scope staging_of sync_rings ring_scopes
kind_scopes Kind.build id Trust.community params = (codes "staging:" ++ decimal id) ∷ []
kind_scopes Kind.build id Trust.project params =
    if is_review params
    then (codes "staging:" ++ decimal id) ∷ []
    else (codes "pool:write"
        ∷ release_scope (ring_of params)
        ∷ artifacts_scope (ring_of params)
        ∷ [])
kind_scopes Kind.publish id trust params =
    staging_of (param "task" params)
    ++ (codes "pool:write" ∷ codes "release:edge" ∷ codes "artifacts:*:edge" ∷ [])
kind_scopes Kind.sync id trust params = codes "pool:write" ∷ ring_scopes (sync_rings params)
kind_scopes Kind.promote id trust params =
    release_scope (text_or "rc" (param "to" params))
    ∷ artifacts_scope (text_or "rc" (param "to" params))
    ∷ []
kind_scopes Kind.rollback id trust params =
    release_scope (ring_of params) ∷ artifacts_scope (ring_of params) ∷ []
kind_scopes Kind.render id trust params = artifacts_scope (ring_of params) ∷ []
kind_scopes Kind.security id trust params =
    codes "security:write"
    ∷ codes "release:rc"
    ∷ codes "release:stable"
    ∷ codes "artifacts:*:rc"
    ∷ codes "artifacts:*:stable"
    ∷ []
kind_scopes Kind.gc id trust params = codes "gc" ∷ []
kind_scopes Kind.relayout id trust params =
    codes "relayout"
    ∷ codes "artifacts:*:edge"
    ∷ codes "artifacts:*:rc"
    ∷ codes "artifacts:*:stable"
    ∷ []
kind_scopes Kind.enqueue id trust params = codes "factory:write" ∷ []
kind_scopes Kind.verify id trust params =
    codes "pool:write"
    ∷ codes "release:edge"
    ∷ codes "release:rc"
    ∷ codes "release:stable"
    ∷ codes "artifacts:*:edge"
    ∷ codes "artifacts:*:rc"
    ∷ codes "artifacts:*:stable"
    ∷ []
kind_scopes Kind.audit id trust params = staging_of (param "task" params)
kind_scopes Kind.health id trust params = []
kind_scopes Kind.metrics id trust params = []

-- `scopesFor`: the scopes that a task of this kind needs.
unfoldable pub scopes_for : Kind → ℕ → Trust → Params → List Text
unfolding kind_scopes
scopes_for kind id trust params =
    (codes "task:" ++ decimal id) ∷ codes "events" ∷ kind_scopes kind id trust params
