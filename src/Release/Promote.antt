-- ===== src/Release/Promote.antt =====
-- A promotion or a rollback: what a release serves that starts from another one
-- (handleCreateRelease of worker/src/routes/releases.ts).
use omarchy_cli.Base.{
  Bool, List, Option, Option-cases, [], arith, exists, false, first, inl, inr, none, not, refl,
  select, true, ℕ, ◌&&◌, ◌==◌, ◌∙◌, ◌∷◌, ◌≡◌, Bool-cases, some, subst, sym, ap,
}
use omarchy_cli.Factory.Rows.{Arch}
use omarchy_cli.Release.Create.{
  CreateRelease, is_removed, is_replaced, joins, target, base_members, mixed, source_release,
  added_ids, arch_param,
}
use omarchy_cli.Release.Rows.{Package, Pool, Release, Ring}
use omarchy_cli.Release.Selection.{holds, holds-select, holds-union}
use omarchy_cli.Factory.Reply.{Reply-cases, answer}
use omarchy_cli.Release.Checkpoint.{Keeps, release_members-Keeps}
use omarchy_cli.Release.History.{ring_head-Lists, write_release-live}
use omarchy_cli.Release.Members.{release_members, ring_head, ring_members}
use omarchy_cli.Release.Replay.{History, Lists}
use omarchy_cli.Release.Write.{
  Created, handle_create_release, new_release, plan_release, write_release, Plan,
}
use omarchy_cli.Release.Plan.{plan_release-Keeps, plan_release-Planned}

-- The request adds nothing, drops nothing and moves every architecture.
abbrev pub IsPlain : CreateRelease → Type 0
IsPlain b = (b.add ≡ none) × (b.remove ≡ none) × (b.remove_from ≡ none) × (b.arch ≡ none)

-- The id is in the table of packages.
abbrev pub indexed : Pool → ℕ → Bool
indexed st p = joins st.packages (λ q. true) p

-- Nothing replaces a row when nothing is added.
exists_none :
    {A : Type 0} (xs : List A) (test : A → Bool)
    → ((x : A) → test x ≡ false)
    → exists test xs ≡ false
unfolding exists
exists_none [] test h = refl
exists_none (x ∷ xs) test h = ground (arith, h x, exists_none xs test h)

joins_all :
    (packages : List Package) (test : Package → Bool) (p : ℕ)
    → ((q : Package) → test q ≡ true)
    → joins packages test p ≡ joins packages (λ q. true) p
unfolding joins
joins_all packages test p h = elim (Option-cases (first (λ q. q.id == p) packages)) [
  | inl e ↦ rw (e, joins) refl
  | inr (q, e) ↦ rw (e, joins) (h q)
]

target_plain :
    (b : CreateRelease) (scope : Option Arch) (packages : List Package) (base : List ℕ) (p : ℕ)
    → IsPlain b
    → holds p (target b scope [] packages base) ≡ (holds p base && joins packages (λ q. true) p)
unfolding target is_removed is_replaced holds exists
target_plain b scope packages base p (_, remove, remove_from, _) =
    let keep : Package → Bool =
      λ q. not (is_removed b scope q) && not (is_replaced [] packages q) in
    let kept : (q : Package) → keep q ≡ true =
      λ q. ground (arith, exists_none packages (λ x. false) (λ x. refl)) in
    let a = holds-union p (select (joins packages keep) base) [] in
    let c = holds-select p (joins packages keep) base in
    let d = joins_all packages keep p kept in a ∙ ground (arith, c, d)

-- The base is the source's selection.
base_members-source :
    (history : History) (source : Release) (parent : Option Release) (ring : Ring) (st st' : Pool)
    (ids : List ℕ)
    → Keeps history st
    → parent ≡ ring_head ring st
    → base_members (some source) parent none ring st ≡ some (ids, st')
    → Lists ids (history source.id)
unfolding base_members mixed
base_members-source history source none ring st st' ids k from e =
    (release_members-Keeps history st st' source.id ids k e).1
base_members-source history source (some parent) ring st st' ids k from e =
    elim (Bool-cases (source.id == parent.id)) [
      | inl at ↦
          let same : ring_members ring st ≡ ids = ground arith in
          let is_parent : parent.id ≡ source.id = ground arith in
          let served = (ring_head-Lists history st ring k parent (sym from)).0 in
          subst (λ l. Lists l (history source.id)) same
            (subst (λ i. Lists (ring_members ring st) (history i)) is_parent served)
      | inr at ↦ elim (Option-cases (release_members source.id st)) [
        | inl x ↦ ground arith
        | inr ((members, s), x) ↦
            let same : members ≡ ids = ground arith in
            subst (λ l. Lists l (history source.id)) same
              (release_members-Keeps history st s source.id members k x).1
      ]
    ]

plan_release-promoted :
    (history : History) (b : CreateRelease) (source : Release) (plan : Plan) (st s : Pool)
    → Keeps history st
    → IsPlain b
    → source_release b st ≡ answer (some source)
    → plan_release b st ≡ answer (plan, s)
    → Lists plan.chosen (λ p. history source.id p && indexed st p)
unfolding arch_param added_ids
plan_release-promoted history b source plan st s k plain from e p =
    let (found, scope, only, base, is_source, _, is_adds, is_only, made, parent, chosen) =
      plan_release-Planned b plan st s e in
    let same = (plan_release-Keeps history b plan st s k e).2 in
    let no_adds : plan.adds ≡ [] = (let none_added = plain.0 in ground arith) in
    let no_arch : only ≡ none = (let none_named = plain.3 in ground arith) in
    let the_source : found ≡ some source = ground arith in
    let made' : base_members (some source) plan.parent none plan.ring st ≡ some (base, s) =
      subst (λ o. base_members o plan.parent none plan.ring st ≡ some (base, s)) the_source
        (subst (λ o. base_members found plan.parent o plan.ring st ≡ some (base, s)) no_arch
          (subst (λ o. base_members found o only plan.ring st ≡ some (base, s)) (sym parent)
            made)) in
    let listed =
      base_members-source history source plan.parent plan.ring st s base k parent made' p in
    let picked : plan.chosen ≡ target b scope [] st.packages base =
      chosen
      ∙ ap (λ l. target b scope l s.packages base) no_adds
      ∙ ap (λ l. target b scope [] l base) same.2 in
    ap (holds p) picked
    ∙ target_plain b scope st.packages base p plain
    ∙ ap (λ x. x && indexed st p) listed

-- A promotion or a rollback serves what its source was made with. A request that names a source
-- (another ring's head, or any earlier release) and nothing else, where it is answered, makes the
-- ring serve exactly the source's selection, of the packages that are still in the table.
pub handle_create_release-promoted :
    (history : History) (b : CreateRelease) (source : Release) (st st' : Pool) (c : Created)
    → Keeps history st
    → IsPlain b
    → source_release b st ≡ answer (some source)
    → handle_create_release b st ≡ answer (c, st')
    → Lists (ring_members c.release.ring st') (λ p. history source.id p && indexed st p)
unfolding handle_create_release new_release
handle_create_release-promoted history b source st st' c k plain from e =
    elim (Reply-cases (plan_release b st)) [
      | inr (n, f) ↦ ground arith
      | inl ((plan, s), f) ↦
          let chosen = plan_release-promoted history b source plan st s k plain from f in
          let created : Created = record {
            release = new_release b plan s;
            unchanged_arches = plan.unchanged;
          } in
          let made : (created, write_release b plan s) ≡ (c, st') = ground arith in
          subst
            (λ (x, y).
              Lists (ring_members x.release.ring y) (λ p. history source.id p && indexed st p))
            made (λ p. write_release-live history b plan s p ∙ chosen p)
    ]
