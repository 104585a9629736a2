-- ===== src/Release/Trace.antt =====
-- Requests one after the other: a release that is made, and a release that is read.
use omarchy_cli.Base.{
  Bool, List, [], arith, false, inl, inr, none, some, subst, ℕ, ◌+◌, ◌∷◌, ◌≡◌, Option-cases, ap,
  refl, ◌<◌, ◌∙◌, ◌≤◌,
}
use omarchy_cli.Factory.Reply.{after, Reply-cases, answer}
use omarchy_cli.Release.Checkpoint.{Keeps, release_members-Keeps}
use omarchy_cli.Release.Create.{CreateRelease}
use omarchy_cli.Release.History.{extend, write_release-live, write_release-other}
use omarchy_cli.Release.Members.{release_members, ring_members}
use omarchy_cli.Release.Plan.{plan_release-Keeps, release_members-SameRings}
use omarchy_cli.Release.Replay.{History, Lists}
use omarchy_cli.Release.Rows.{Pool, Ring, ring_eq}
use omarchy_cli.Release.Write.{
  Created, handle_create_release, new_release, plan_release, write_release,
}
use omarchy_cli.Release.Selection.{holds, pinned}
use omarchy_cli.Release.Served.{write_release-Keeps}

pub data Request : Type 0 where
  create : CreateRelease → Request
  read : ℕ → Request

unfoldable pub serve : Request → Pool → Pool
unfolding handle_create_release release_members
serve (Request.create b) st = after st (handle_create_release b st)
serve (Request.read id) st = elim (release_members id st) [ none ↦ st | some (ids, st') ↦ st' ]

unfoldable pub serve_all : List Request → Pool → Pool
unfolding serve
serve_all [] st = st
serve_all (q ∷ more) st = serve_all more (serve q st)

-- A release that is made.
abbrev pub Made : History → Pool → Created → Pool → Type 0
Made history st c st' =
    (chosen : ℕ → Bool) × (c.release.id ≡ st.next_release)
    × Keeps (extend history st.next_release chosen) st'
    × Lists (ring_members c.release.ring st') chosen
    × ((other : Ring)
        → ring_eq other c.release.ring ≡ false
        → ring_members other st' ≡ ring_members other st)
    × (st'.next_release ≡ st.next_release + 1)

-- A release that is made is the next one; its ring serves its selection from then on, the other
-- rings serve what they served, and the pool keeps the history with the new release in it: every
-- older release's selection is still what its checkpoint, or the deltas behind it, tell.
pub handle_create_release-Made :
    (history : History) (b : CreateRelease) (st st' : Pool) (c : Created)
    → Keeps history st
    → handle_create_release b st ≡ answer (c, st')
    → Made history st c st'
unfolding handle_create_release new_release write_release ring_members
handle_create_release-Made history b st st' c k e = elim (Reply-cases (plan_release b st)) [
  | inr (n, f) ↦ ground arith
  | inl ((plan, s), f) ↦
      let (kept, served, same) = plan_release-Keeps history b plan st s k f in
      let created : Created = record {
        release = new_release b plan s;
        unchanged_arches = plan.unchanged;
      } in
      let made : (created, write_release b plan s) ≡ (c, st') = ground arith in
      subst (λ (x, y). Made history st x y) made
        (
          λ p. holds p plan.chosen,
          same.1,
          subst (λ n. Keeps (extend history n (λ p. holds p plan.chosen)) (write_release b plan s))
              same.1 (write_release-Keeps history b plan s kept served),
          write_release-live history b plan s,
          λ other h.
              write_release-other history b plan s other h
              ∙ ap (λ rows. pinned (ring_eq other) rows) same.0,
          ap (λ n. n + 1) same.1,
        )
]

-- The later history tells of every release that was there what the earlier one does.
abbrev Later : History → Pool → History → Pool → Type 0
Later history st later st' =
    Keeps later st'
    × (st.next_release ≤ st'.next_release)
    × ((i p : ℕ) → i < st.next_release → later i p ≡ history i p)

serve-Later :
    (history : History) (q : Request) (st : Pool)
    → Keeps history st
    → (later : History) × Later history st later (serve q st)
unfolding serve
serve-Later history (Request.create b) st k = elim (Reply-cases (handle_create_release b st)) [
  | inr (n, f) ↦ rw f (history, (k, omega arith, λ i p lt. refl))
  | inl ((c, s), f) ↦
      let (chosen, _, kept, _, _, next) = handle_create_release-Made history b st s c k f in
      rw f (extend history st.next_release chosen, (kept, ground arith, λ i p lt. ground arith))
]
serve-Later history (Request.read id) st k = elim (Option-cases (release_members id st)) [
  | inl f ↦ rw (f, serve) (history, (k, omega arith, λ i p lt. refl))
  | inr ((ids, s), f) ↦
      let next = (release_members-SameRings st s id ids f).1 in
      rw (f, serve)
        (history, ((release_members-Keeps history st s id ids k f).0, ground arith, λ i p lt. refl))
]

serve_all-Later :
    (history : History) (requests : List Request) (st : Pool)
    → Keeps history st
    → (later : History) × Later history st later (serve_all requests st)
unfolding serve_all
serve_all-Later history [] st k = (history, (k, omega arith, λ i p lt. refl))
serve_all-Later history (q ∷ more) st k =
    let (mid, (kept, le, same)) = serve-Later history q st k in
    let (later, (kept', le', same')) = serve_all-Later mid more (serve q st) kept in
    (later, (kept', omega arith, λ i p lt. same' i p (omega arith) ∙ same i p lt))

-- A release is immutable: in a pool that keeps a history, after any requests that make releases
-- (promotions, rollbacks, adds and removes, refused ones too) and read them, what releaseMembers
-- lists of a release that was there is the selection it was made with.
pub serve_all-immutable :
    (history : History) (requests : List Request) (st st' : Pool) (i : ℕ) (ids : List ℕ)
    → Keeps history st
    → i < st.next_release
    → release_members i (serve_all requests st) ≡ some (ids, st')
    → Lists ids (history i)
serve_all-immutable history requests st st' i ids k lt e p =
    let (later, (kept, _, same)) = serve_all-Later history requests st k in
    (release_members-Keeps later (serve_all requests st) st' i ids kept e).1 p ∙ same i p lt
