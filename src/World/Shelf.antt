-- ===== src/World/Shelf.antt =====
-- What the pool's operations do to the releases is what a list of requests to
-- worker/src/routes/releases.ts does; a block of a package makes its releases through them.
use omarchy_cli.Base.{
  List, Option, String, Text, [], ap, codes, first, inl, inr, is_some, not, refl, slice_front, some,
  subst, sym, ℕ, ◌++◌, ◌<◌, ◌∙◌, ◌∷◌, ◌≡◌,
}
use omarchy_cli.Release.Trace as ReleaseTrace
use omarchy_cli.Blocks.Contributors.{Clock, reason_of}
use omarchy_cli.Blocks.Packages.{
  Town, handle_block_package, pull_from_rings, pull_request, pull_ring, pull_rings, serving_rings,
}
use omarchy_cli.Factory.Journal.{is_named}
use omarchy_cli.Factory.Reply.{Reply-cases, after}
use omarchy_cli.Factory.Rows.{Contributor}
use omarchy_cli.Release.Checkpoint.{Keeps}
use omarchy_cli.Release.Members.{release_members}
use omarchy_cli.Release.Replay.{History, Lists}
use omarchy_cli.Release.Rows.{Pool, Ring}
use omarchy_cli.Release.Write.{handle_create_release}
use omarchy_cli.Review.Decide.{is_maintainer}
use omarchy_cli.Schedule.Jobs.{checked}
use omarchy_cli.Factory.Chains.{or_refuse-after, require-after}
use omarchy_cli.World.Trace.{Operation, Outside, operate, operate_all}

-- The releases are served a list of requests.
abbrev pub Serves : Pool → Pool → Type 0
Serves st st' = (requests : List ReleaseTrace.Request) × (st' ≡ ReleaseTrace.serve_all requests st)

serve_all-append :
    (xs ys : List ReleaseTrace.Request) (st : Pool)
    → ReleaseTrace.serve_all (xs ++ ys) st
      ≡ ReleaseTrace.serve_all ys (ReleaseTrace.serve_all xs st)
unfolding ReleaseTrace.serve_all
serve_all-append [] ys st = refl
serve_all-append (x ∷ xs) ys st = serve_all-append xs ys (ReleaseTrace.serve x st)

Serves-refl : (st : Pool) → Serves st st
unfolding ReleaseTrace.serve_all
Serves-refl st = ([], refl)

Serves-trans : (a b c : Pool) → Serves a b → Serves b c → Serves a c
Serves-trans a b c (xs, e) (ys, f) =
    (xs ++ ys, f ∙ ap (ReleaseTrace.serve_all ys) e ∙ sym (serve_all-append xs ys a))

one-Serves : (r : ReleaseTrace.Request) (st : Pool) → Serves st (ReleaseTrace.serve r st)
unfolding ReleaseTrace.serve_all
one-Serves r st = (r ∷ [], refl)

pull_ring-serve :
    (name : String) (why : Text) (now : ℕ) (ring : Ring) (town : Town)
    → (pull_ring name why now ring town).releases
      ≡ ReleaseTrace.serve (ReleaseTrace.Request.create (pull_request name why ring)) town.releases
unfolding pull_ring ReleaseTrace.serve
pull_ring-serve name why now ring town =
    elim (Reply-cases (handle_create_release (pull_request name why ring) town.releases)) [
      | inr (n, e) ↦ rw (e, pull_ring) refl
      | inl ((made, releases), e) ↦ rw (e, pull_ring) refl
    ]

pull_rings-Serves :
    (name : String) (why : Text) (now : ℕ) (rings : List Ring) (town : Town)
    → Serves town.releases (pull_rings name why now rings town).releases
unfolding pull_rings
pull_rings-Serves name why now [] town = Serves-refl town.releases
pull_rings-Serves name why now (ring ∷ more) town =
    let next = pull_ring name why now ring town in
    let request = ReleaseTrace.Request.create (pull_request name why ring) in
    let one : Serves town.releases next.releases =
      subst (Serves town.releases) (sym (pull_ring-serve name why now ring town))
        (one-Serves request town.releases) in
    Serves-trans town.releases next.releases (pull_rings name why now more next).releases one
      (pull_rings-Serves name why now more next)

handle_block_package-Serves :
    (clock : Clock) (c : Contributor) (name : String) (reason : Option Text) (now : ℕ) (town : Town)
    → Serves town.releases (after town (handle_block_package clock c name reason now town)).releases
unfolding handle_block_package pull_from_rings
handle_block_package-Serves clock c name reason now town =
    let P : Town → Type 0 = λ t. Serves town.releases t.releases in
    let same = Serves-refl town.releases in
    require-after P town (is_maintainer c) 403 _ same (
      or_refuse-after P town (reason_of reason) 400 _ same (λ why.
        or_refuse-after P town (first (is_named name) town.factory.registrations) 404 _ same (λ pkg.
          require-after P town (not (is_some pkg.blocked)) 409 _ same (
            pull_rings-Serves name
              (codes "blocked by " ++ codes c.login ++ codes ": " ++ slice_front 200 why) now
              (serving_rings name town.releases) town))))

operate-Serves :
    (out : Outside) (o : ℕ × Operation) (town : Town)
    → Serves town.releases (operate out o town).releases
unfolding operate
operate-Serves out (now, Operation.factory r) town = Serves-refl town.releases
operate-Serves out (now, Operation.releases r) town = one-Serves r town.releases
operate-Serves out (now, Operation.asks_build c id why) town = Serves-refl town.releases
operate-Serves out (now, Operation.approves_build c id why) town = Serves-refl town.releases
operate-Serves out (now, Operation.rejects_build c id why) town = Serves-refl town.releases
operate-Serves out (now, Operation.queues_job login b) town = Serves-refl town.releases
operate-Serves out (now, Operation.schedules job_kinds guard) town = Serves-refl town.releases
operate-Serves out (now, Operation.checks_updates checked) town = Serves-refl town.releases
operate-Serves out (now, Operation.blocks_contributor c login why) town = Serves-refl town.releases
operate-Serves out (now, Operation.unblocks_contributor c login why) town =
    Serves-refl town.releases
operate-Serves out (now, Operation.blocks_package c name why) town =
    handle_block_package-Serves out.clock c name why now town
operate-Serves out (now, Operation.removes_package c name) town = Serves-refl town.releases
operate-Serves out (now, Operation.asks_builds c name b) town = Serves-refl town.releases
operate-Serves out (now, Operation.revokes_worker c id) town = Serves-refl town.releases
operate-Serves out (now, Operation.unblocks_package c name why) town = Serves-refl town.releases

-- The operations of the whole pool refine the releases' own: after any of them, the releases are
-- what some list of requests to make and to read a release gives.
pub operate_all-Serves :
    (out : Outside) (ops : List (ℕ × Operation)) (town : Town)
    → Serves town.releases (operate_all out ops town).releases
unfolding operate_all
operate_all-Serves out [] town = Serves-refl town.releases
operate_all-Serves out (o ∷ more) town =
    Serves-trans town.releases (operate out o town).releases _ (operate-Serves out o town)
      (operate_all-Serves out more (operate out o town))

-- A release is immutable whatever the pool does: in a pool that keeps a history, after any
-- operations of the factory, the releases, the review, the scheduler, the update check, the blocks
-- and the contributors' requests, what releaseMembers lists of a release that was there is the
-- selection it was made with.
pub operate_all-immutable :
    (out : Outside) (history : History) (ops : List (ℕ × Operation)) (town : Town) (st : Pool)
    (i : ℕ) (ids : List ℕ)
    → Keeps history town.releases
    → i < town.releases.next_release
    → release_members i (operate_all out ops town).releases ≡ some (ids, st)
    → Lists ids (history i)
operate_all-immutable out history ops town st i ids k lt e =
    let (requests, same) = operate_all-Serves out ops town in
    ReleaseTrace.serve_all-immutable history requests town.releases st i ids k lt
      (subst (λ s. release_members i s ≡ some (ids, st)) same e)
