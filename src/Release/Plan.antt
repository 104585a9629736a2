-- ===== src/Release/Plan.antt =====
-- What the plan of a release stands on: the code in front of the batch of handleCreateRelease of
-- worker/src/routes/releases.ts.
use omarchy_cli.Base.{
  List, Option, Option-cases, arith, first, inl, inr, none, some, subst, ℕ, ◌≡◌, Bool-cases, refl,
  ◌==◌, [], is_some, not, or_else, ◌&&◌, sym, ◌<◌, ◌∙◌,
}
use omarchy_cli.Factory.Rows.{Arch}
use omarchy_cli.Release.Checkpoint.{Keeps, release_members-Keeps}
use omarchy_cli.Release.Create.{
  base_members, CreateRelease, added_ids, arch_param, ring_of, source_release, target,
}
use omarchy_cli.Release.Members.{
  checkpoint_members, ensure_checkpoint, heads_release, is_release, reconstruct, release_members,
  write_checkpoint, ring_head, ring_members,
}
use omarchy_cli.Release.Replay.{History, Lists}
use omarchy_cli.Release.Rows.{Pool, Release, Ring, ring_eq}
use omarchy_cli.Factory.Reply.{answer, Reply-cases}
use omarchy_cli.Release.History.{ParentServed, ring_head-Lists}
use omarchy_cli.Release.Write.{Plan, plan_release, unchanged_arches}
use omarchy_cli.Release.Selection.{pinned}

-- Writing a checkpoint moves no ring.
abbrev pub SameRings : Pool → Pool → Type 0
SameRings st st' =
    (st'.ring_packages ≡ st.ring_packages)
    × (st'.next_release ≡ st.next_release)
    × (st'.packages ≡ st.packages)

ensure_checkpoint-SameRings :
    (st st' : Pool) (id : ℕ) → ensure_checkpoint id st ≡ some st' → SameRings st st'
unfolding ensure_checkpoint write_checkpoint
ensure_checkpoint-SameRings st st' id e = elim (Option-cases (first (is_release id) st.releases)) [
  | inl f ↦ ground arith
  | inr (r, f) ↦ elim (Option-cases (reconstruct r st)) [
    | inl x ↦ ground arith
    | inr (ids, x) ↦ ground arith
  ]
]

pub release_members-SameRings :
    (st st' : Pool) (id : ℕ) (ids : List ℕ)
    → release_members id st ≡ some (ids, st')
    → SameRings st st'
unfolding release_members
release_members-SameRings st st' id ids e =
    elim (Option-cases (first (heads_release id) st.ring_heads)) [
      | inl f ↦ elim (Option-cases (ensure_checkpoint id st)) [
        | inl x ↦ ground arith
        | inr (s, x) ↦
            let same : (checkpoint_members id s, s) ≡ (ids, st') = ground arith in
            subst (λ (i, s). SameRings st s) same (ensure_checkpoint-SameRings st s id x)
      ]
      | inr (head, f) ↦ ground arith
    ]

-- The base of the selection: the history is kept and the rings are as they were.
pub base_members-Keeps :
    (history : History) (source parent : Option Release) (only : Option Arch) (ring : Ring)
    (st st' : Pool) (ids : List ℕ)
    → Keeps history st
    → base_members source parent only ring st ≡ some (ids, st')
    → Keeps history st' × SameRings st st'
unfolding base_members
base_members-Keeps history none none only ring st st' ids k e =
    let same : st ≡ st' = ground arith in
    subst (λ s. Keeps history s × SameRings st s) same (k, (refl, refl, refl))
base_members-Keeps history none (some parent) only ring st st' ids k e =
    let same : st ≡ st' = ground arith in
    subst (λ s. Keeps history s × SameRings st s) same (k, (refl, refl, refl))
base_members-Keeps history (some source) none only ring st st' ids k e = (
  (release_members-Keeps history st st' source.id ids k e).0,
  release_members-SameRings st st' source.id ids e,
)
base_members-Keeps history (some source) (some parent) only ring st st' ids k e =
    elim (Bool-cases (source.id == parent.id)) [
      | inl at ↦
          let same : st ≡ st' = ground arith in
          subst (λ s. Keeps history s × SameRings st s) same (k, (refl, refl, refl))
      | inr at ↦ elim (Option-cases (release_members source.id st)) [
        | inl x ↦ ground arith
        | inr ((members, s), x) ↦
            let same : s ≡ st' = ground arith in
            subst (λ s. Keeps history s × SameRings st s) same
              (
                (release_members-Keeps history st s source.id members k x).0,
                release_members-SameRings st s source.id members x,
              )
      ]
    ]

-- What a plan that is made was made of.
abbrev pub Planned : CreateRelease → Pool → Plan → Pool → Type 0
Planned b st plan st' =
    (source : Option Release) × (scope : Option Arch) × (only : Option Arch) × (base : List ℕ)
    × (source_release b st ≡ answer source)
    × (arch_param b.remove_arch ≡ answer scope)
    × (added_ids (or_else b.add []) scope st.packages ≡ some plan.adds)
    × (arch_param b.arch ≡ answer only)
    × (base_members source (ring_head plan.ring st) only plan.ring st ≡ some (base, st'))
    × (plan.parent ≡ ring_head plan.ring st)
    × (plan.chosen ≡ target b scope plan.adds st'.packages base)

pub plan_release-Planned :
    (b : CreateRelease) (plan : Plan) (st st' : Pool)
    → plan_release b st ≡ answer (plan, st')
    → Planned b st plan st'
unfolding plan_release
plan_release-Planned b plan st st' e = elim (Option-cases (ring_of b.ring)) [
  | inl f ↦ ground arith
  | inr (ring, f1) ↦ elim (Reply-cases (source_release b st)) [
    | inr (n, f) ↦ ground arith
    | inl (source, f2) ↦ elim (Reply-cases (arch_param b.remove_arch)) [
      | inr (n, f) ↦ ground arith
      | inl (scope, f3) ↦ elim (Option-cases (added_ids (or_else b.add []) scope st.packages)) [
        | inl f ↦ ground arith
        | inr (adds, f4) ↦ elim (Reply-cases (arch_param b.arch)) [
          | inr (n, f) ↦ ground arith
          | inl (only, f5) ↦ elim (Bool-cases (not (is_some only && not (is_some source)))) [
            | inr f ↦ ground arith
            | inl f6 ↦ elim (Option-cases (base_members source (ring_head ring st) only ring st)) [
              | inl f ↦ ground arith
              | inr ((base, s), f7) ↦
                  let made : Plan = record {
                    ring = ring;
                    source = source;
                    parent = ring_head ring st;
                    adds = adds;
                    chosen = target b scope adds s.packages base;
                    unchanged = unchanged_arches b source (ring_head ring st) scope only adds;
                  } in
                  let same : (made, s) ≡ (plan, st') = ground arith in
                  subst (λ (x, y). Planned b st x y) same
                    (source, scope, only, base, f2, f3, f4, f5, f7, refl, refl)
            ]
          ]
        ]
      ]
    ]
  ]
]

-- A plan that is made: its parent is what its ring serves, and the pool keeps the history.
pub plan_release-Keeps :
    (history : History) (b : CreateRelease) (plan : Plan) (st st' : Pool)
    → Keeps history st
    → plan_release b st ≡ answer (plan, st')
    → Keeps history st' × ParentServed history plan.ring plan.parent st' × SameRings st st'
unfolding ring_members
plan_release-Keeps history b plan st st' k e =
    let (source, scope, only, base, _, _, _, _, made, parent, _) =
      plan_release-Planned b plan st st' e in
    let (kept, same) =
      base_members-Keeps history source (ring_head plan.ring st) only plan.ring st st' base k
        made in
    (
      kept,
      λ r at.
          let (served, lt) = ring_head-Lists history st plan.ring k r (sym parent ∙ at) in
          (
            subst (λ rows. Lists (pinned (ring_eq plan.ring) rows) (history r.id)) (sym same.0)
                served,
            subst (λ n. r.id < n) (sym same.1) lt,
          ),
      same,
    )
