-- ===== src/Release/Kept.antt =====
-- What retention never deletes (worker/src/routes/gc.ts).
use omarchy_cli.Base.{
  All, Bool, Bool-cases, List, [], ap, arith, delete, exists, false, if◌then◌else◌, inl, inr, ltb,
  refl, select, suc, take, true, zero, ℕ, ◌&&◌, ◌++◌, ◌==◌, ◌||◌, ◌∙◌, ◌∷◌, ◌≡◌,
}
use omarchy_cli.Release.Members.{ring_members}
use omarchy_cli.Release.Retention.{
  Depot, Retention, collect, collect_all, handle_gc, id_in, is_unreferenced, oldest_first, pins,
  prune, retention, unreferenced,
}
use omarchy_cli.Release.Rows.{Package, Pool, Ring, ring_eq}
use omarchy_cli.Release.Selection.{pinned}

-- A ring serves the package, a protected release changed it, or a kept checkpoint lists it.
abbrev pub is_pinned : Retention → Pool → ℕ → Bool
is_pinned kept st id =
    exists (pins (λ ring. true) id) st.ring_packages
    || exists (λ d. id_in d.release_id kept.protected_releases && d.package_id == id)
        st.release_deltas
    || exists (pins (λ i. id_in i kept.kept_checkpoints) id) st.release_packages

-- Rows outside a selection are deleted.
pub select-delete {ℓ} :
    {A : Type ℓ}
    → (chosen test : A → Bool) (xs : List A) → ((x : A) → test x ≡ true → chosen x ≡ false)
    → select chosen (delete test xs) ≡ select chosen xs
unfolding select delete
select-delete chosen test [] h = refl
select-delete chosen test (x ∷ xs) h =
    let rest = select-delete chosen test xs h in
    elim (Bool-cases (test x)) [
      | inl e ↦ let out = h x e in rw e (rw out rest)
      | inr e ↦ rw e (rw rest refl)
    ]

pub select-All {ℓ κ} :
    {A : Type ℓ}
    → (P : A → Type κ) (test : A → Bool) (xs : List A) → ((x : A) → test x ≡ true → P x)
    → All P (select test xs)
unfolding select
select-All P test [] h = tt
select-All P test (x ∷ xs) h = elim (Bool-cases (test x)) [
  | inl e ↦ rw e (h x e, select-All P test xs h)
  | inr e ↦ rw e (select-All P test xs h)
]

pub append-All {ℓ κ} :
    {A : Type ℓ} → (P : A → Type κ) (xs ys : List A) → All P xs → All P ys → All P (xs ++ ys)
append-All P [] ys h k = k
append-All P (x ∷ xs) ys (p, h) k = (p, append-All P xs ys h k)

oldest_first-All {ℓ κ} :
    {A : Type ℓ} → (P : A → Type κ) (xs : List A) → All P xs → All P (oldest_first xs)
unfolding oldest_first
oldest_first-All P [] h = tt
oldest_first-All P (x ∷ xs) (p, h) =
    append-All P (oldest_first xs) (x ∷ []) (oldest_first-All P xs h) (p, tt)

pub take-All {ℓ κ} :
    {A : Type ℓ} → (P : A → Type κ) (n : ℕ) (xs : List A) → All P xs → All P (take n xs)
unfolding take
take-All P zero xs h = tt
take-All P (suc n) [] h = tt
take-All P (suc n) (x ∷ xs) (p, h) = (p, take-All P n xs h)

collect_all-kept :
    (chosen : ℕ → Bool) (victims : List Package) (d : Depot)
    → All (λ p. chosen p.id ≡ false) victims
    → select (λ p. chosen p.id) (collect_all victims d).index.packages
      ≡ select (λ p. chosen p.id) d.index.packages
unfolding collect_all collect
collect_all-kept chosen [] d h = refl
collect_all-kept chosen (p ∷ more) d (out, h) =
    collect_all-kept chosen more (collect p d) h
    ∙ select-delete (λ q. chosen q.id) (λ q. q.id == p.id) d.index.packages
        (λ q e. let same : q.id ≡ p.id = ground arith in rw same out)

collect_all-rings :
    (victims : List Package) (d : Depot)
    → ((collect_all victims d).index.ring_packages ≡ d.index.ring_packages)
      × ((collect_all victims d).index.ring_heads ≡ d.index.ring_heads)
unfolding collect_all collect
collect_all-rings [] d = (refl, refl)
collect_all-rings (p ∷ more) d = collect_all-rings more (collect p d)

unreferenced-unpinned :
    (kept : Retention) (grace_days now : ℕ) (st : Pool)
    → All (λ p. is_pinned kept st p.id ≡ false) (unreferenced kept grace_days now st)
unfolding unreferenced
unreferenced-unpinned kept grace_days now st =
    let test = is_unreferenced kept grace_days now st in
    oldest_first-All _ (select test st.packages)
      (select-All _ test st.packages (λ p e. ground arith))

-- How many releases of a ring a run keeps.
abbrev kept_by : ℕ → Pool → Retention
kept_by keep st = retention (if ltb keep 1 then 1 else keep) st

-- A run of the retention, with any of its numbers, leaves the row of every package that a ring
-- serves, that one of the protected releases added or removed, or that a kept checkpoint lists;
-- and every ring serves what it served, with the same release at its head.
pub handle_gc-keeps :
    (keep limit grace_days now : ℕ) (d : Depot)
    → (select
          (λ p. is_pinned (kept_by keep d.index) d.index p.id)
          (handle_gc keep limit grace_days now d).1.index.packages
        ≡ select (λ p. is_pinned (kept_by keep d.index) d.index p.id) d.index.packages)
      × ((ring : Ring)
          → ring_members ring (handle_gc keep limit grace_days now d).1.index
            ≡ ring_members ring d.index)
      × ((handle_gc keep limit grace_days now d).1.index.ring_heads ≡ d.index.ring_heads)
unfolding handle_gc prune ring_members
handle_gc-keeps keep limit grace_days now d =
    let kept = kept_by keep d.index in
    let packages = unreferenced kept grace_days now d.index in
    let most = if ltb 500 limit then 500 else limit in
    let victims = take most packages in
    let pruned : Depot = record d { index = prune kept d.index } in
    let out = take-All _ most packages (unreferenced-unpinned kept grace_days now d.index) in
    let (rings, heads) = collect_all-rings victims pruned in
    (
      collect_all-kept (is_pinned kept d.index) victims pruned out,
      λ ring. ap (λ rows. pinned (ring_eq ring) rows) rings,
      heads,
    )
