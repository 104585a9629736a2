-- ===== src/Auth.antt =====
-- Who may write (worker/src/auth.ts): a job token that carries the scope, or a maintainer. The
-- answers are the HTTP statuses that refuse, or none where the request may go on.
pub mod Staging
use omarchy_cli.Base.{
  Bool, List, Option, Text, [], codes, decimal, exists, false, if◌then◌else◌, none, some,
  starts_with, text_eq, true, ℕ, ◌&&◌, ◌++◌, ◌==◌, ◌||◌, ◌∷◌,
}
use omarchy_cli.Factory.Rows.{Contributor, Role}
use omarchy_cli.Token.Claims.{Claims}
use omarchy_cli.Token.Verify.{Verified}

-- `s.endsWith(":*")`
unfoldable pub ends_star : Text → Bool
ends_star [] = false
ends_star (c ∷ []) = false
ends_star (c ∷ d ∷ []) = c == b':' && d == b'*'
ends_star (c ∷ d ∷ e ∷ s) = ends_star (d ∷ e ∷ s)

-- `s.slice(0, -1)`
unfoldable pub drop_last : Text → Text
drop_last [] = []
drop_last (c ∷ []) = []
drop_last (c ∷ d ∷ s) = c ∷ drop_last (d ∷ s)

-- A scope that a token holds covers the one asked: the same, or one ending in `:*` in front of it.
unfoldable pub covers : Text → Text → Bool
unfolding ends_star drop_last
covers asked held = text_eq held asked || (ends_star held && starts_with (drop_last held) asked)

-- The test of `authorize`.
unfoldable pub may : List Text → Text → Bool
unfolding covers
may scopes asked = exists (covers asked) scopes

-- A request's credentials: what its job token says, and who signed in.
pub record Caller : Type 0 where
  pub token : Verified
  pub person : Option Contributor

scope_status : Claims → Text → Option ℕ
unfolding may
scope_status job asked = if may job.s asked then none else some 403

-- `authorize`; an exception of jobOf is the router's 500.
unfoldable pub authorize : Caller → Text → Option ℕ
unfolding scope_status
authorize c asked = elim c.token [
  | Verified.claims job ↦ scope_status job asked
  | Verified.nobody ↦ some 401
  | Verified.thrown ↦ some 500
]

is_role_maintainer : Contributor → Bool
is_role_maintainer p = elim p.role [ Role.maintainer ↦ true | Role.contributor ↦ false ]

-- `maintainerOf`
unfoldable pub maintainer_status : Caller → Option ℕ
unfolding is_role_maintainer
maintainer_status c = elim c.person [
  | none ↦ some 401
  | some p ↦ if is_role_maintainer p then none else some 403
]

-- `authorizeJobOrMaintainer`
unfoldable pub authorize_job_or_maintainer : Caller → Text → Option ℕ
unfolding authorize maintainer_status
authorize_job_or_maintainer c asked = elim c.token [
  | Verified.claims job ↦ authorize c asked
  | Verified.nobody ↦ maintainer_status c
  | Verified.thrown ↦ some 500
]

-- `authorizeRelease`: the ring that the body names, no JSON being refused.
unfoldable pub authorize_release : Caller → Option Text → Option ℕ
unfolding authorize
authorize_release c none = some 400
authorize_release c (some ring) = authorize c (codes "release:" ++ ring)

-- `authorizeArtifacts`: by the release's own scope, or its ring's.
unfoldable pub authorize_artifacts : Caller → ℕ → Option Text → Option ℕ
unfolding authorize may
authorize_artifacts c release none = some 404
authorize_artifacts c release (some ring) = elim c.token [
  | Verified.claims job ↦
      if exists (text_eq (codes "artifacts:" ++ decimal release)) job.s
      then none
      else authorize c (codes "artifacts:*:" ++ ring)
  | Verified.nobody ↦ some 401
  | Verified.thrown ↦ some 500
]
