-- ===== src/Release/Promise.antt =====
-- A run of the retention and the releases that it protects (worker/src/routes/gc.ts with
-- ensureCheckpoint of worker/src/db.ts).
use omarchy_cli.Base.{
  All, Bool-cases, List, Memᴰ, [], arith, exists, first, inl, inr, refl, select, some, subst, sym,
  true, ℕ, ◌++◌, ◌∙◌, ◌∷◌, ◌≡◌, Option-cases, suc, zero, ◌&&◌, ap, if◌then◌else◌, ltb, none, take,
  ◌*◌, ◌-◌,
}
use omarchy_cli.Release.Cuts.{
  first-select, keep_ring-base, keep_ring-grows, keep_rings-cuts, keep_rings-own, marked_rows,
  marks_of, rows_of, first-same,
}
use omarchy_cli.Release.Line.{
  Ends, Front, InLine, chain_from-upto, is_base_of, is_marked, protected-Front,
}
use omarchy_cli.Release.Members.{
  chain_from, is_release, replay, checkpoint_every, checkpoint_members, deltas_of, heads_release,
  reconstruct, ring_members,
}
use omarchy_cli.Release.Prune.{chain_from-prune, replay-prune}
use omarchy_cli.Release.Readable.{Ends-Intact, Ends-stays, Keyed, upto-All}
use omarchy_cli.Release.Retention.{
  all_rings, id_in, is_base, last, nothing_kept, prune, retention, Depot, collect, collect_all,
  handle_gc, unreferenced, Retention,
}
use omarchy_cli.Release.Rows.{Pool, Release, Ring, ring_eq, Package, Head}
use omarchy_cli.Release.Selection.{pinned}

id_in_after : (id : ℕ) (xs ys : List ℕ) → id_in id ys ≡ true → id_in id (xs ++ ys) ≡ true
unfolding exists
id_in_after id [] ys e = e
id_in_after id (x ∷ xs) ys e = ground (arith, id_in_after id xs ys e)

all_rings-in : (ring : Ring) → exists (ring_eq ring) all_rings ≡ true
unfolding exists
all_rings-in Ring.edge = refl
all_rings-in Ring.rc = refl
all_rings-in Ring.stable = refl

-- What the releases of a ring are, and where they are found.
abbrev Placed : Pool → Ring → Release → Type 0
Placed st ring c = (first (is_release c.id) st.releases ≡ some c) × (ring_eq ring c.ring ≡ true)

select-Placed :
    (st : Pool) (ring : Ring) (rs : List Release)
    → All (λ c. first (is_release c.id) st.releases ≡ some c) rs
    → All (Placed st ring) (select (λ r. ring_eq ring r.ring) rs)
unfolding select
select-Placed st ring [] h = tt
select-Placed st ring (r ∷ rs) (f, h) = elim (Bool-cases (ring_eq ring r.ring)) [
  | inl e ↦ rw e ((f, e), select-Placed st ring rs h)
  | inr e ↦ rw e (select-Placed st ring rs h)
]

mem-All {κ} : (P : Release → Type κ) (t : Release) (ts : List Release) → Memᴰ t ts → All P ts → P t
mem-All P t [] m a = elim m [ ]
mem-All P t (u ∷ us) (Memᴰ.head e) a = rw e a.0
mem-All P t (u ∷ us) (Memᴰ.tail m) a = mem-All P t us m a.1

rows-marked :
    (keep : ℕ) (st : Pool) (ring : Ring)
    → All (λ x. is_marked (retention keep st) x ≡ true) (rows_of keep st ring)
unfolding retention
rows-marked keep st ring =
    marked_rows (retention keep st).kept_checkpoints (rows_of keep st ring) (λ id h.
      keep_rings-own keep st ring id all_rings nothing_kept
        (λ k.
          keep_ring-grows keep st k ring id
            (id_in_after id k.kept_checkpoints (marks_of keep st ring) h))
        (all_rings-in ring))

-- The chain of a protected release is found as it was, and replays to the same packages.
module _ (keep : ℕ) (st : Pool) (ring : Ring) (oldest base : Release) (keyed : Keyed st.releases)
    (line : InLine st (select (λ r. ring_eq ring r.ring) st.releases))
    (l : last (rows_of keep st ring) ≡ some oldest)
    (b : first (is_base ring oldest.seq) st.releases ≡ some base) where
  rows-Front : All (Front (retention keep st) st (Placed st ring) base.seq) (rows_of keep st ring)
  unfolding retention
  rows-Front =
      let rs = select (λ r. ring_eq ring r.ring) st.releases in
      protected-Front (retention keep st) st (Placed st ring) keep oldest base rs line
        (select-Placed st ring st.releases keyed) l (rows-marked keep st ring)
        (sym (first-select (λ r. ring_eq ring r.ring) (is_base_of oldest.seq) st.releases)
          ∙ first-same (λ r. ring_eq ring r.ring && is_base_of oldest.seq r)
              (is_base ring oldest.seq) st.releases (λ r. ground arith)
          ∙ b)
        (keep_rings-own keep st ring base.id all_rings nothing_kept
          (λ k. keep_ring-base keep st k ring oldest base l b) (all_rings-in ring))

  chain-kept :
      (n : ℕ) (r : Release) (chain : List Release)
      → Memᴰ r (rows_of keep st ring)
      → chain_from n r st ≡ some chain
      → (chain_from n r (prune (retention keep st) st) ≡ some chain)
        × (replay chain (prune (retention keep st) st) ≡ replay chain st)
  unfolding retention
  chain-kept n r chain m e =
      let kept = retention keep st in
      let (rest, into, placed, ends) = mem-All _ r (rows_of keep st ring) m rows-Front in
      let shape = chain_from-upto st n r rest chain into e in
      let ended : Ends kept base.seq chain = subst (Ends kept base.seq) shape ends in
      let here : All (Placed st ring) chain =
        subst (All (Placed st ring)) shape (upto-All (Placed st ring) (r ∷ rest) placed) in
      let cuts = keep_rings-cuts keep st ring oldest base all_rings nothing_kept l b tt in
      (
        chain_from-prune kept st n r chain e (Ends-stays kept base.seq chain ended),
        replay-prune kept st chain (Ends-Intact kept st ring base.seq chain keyed cuts here ended),
      )

-- The packages' rows are not looked at.
chain_from-packages :
    (st : Pool) (ps : List Package) (n : ℕ) (r : Release)
    → chain_from n r (record st { packages = ps }) ≡ chain_from n r st
unfolding chain_from
chain_from-packages st ps zero r = refl
chain_from-packages st ps (suc n) r = elim (Option-cases r.parent_id) [
  | inl p ↦ rw p refl
  | inr (q, p) ↦ elim (Option-cases (first (is_release q) st.releases)) [
    | inl f ↦ rw (p, f) refl
    | inr (parent, f) ↦ let behind = chain_from-packages st ps n parent in rw (p, f, behind) refl
  ]
]

replay-packages :
    (st : Pool) (ps : List Package) (chain : List Release)
    → replay chain (record st { packages = ps }) ≡ replay chain st
unfolding replay checkpoint_members deltas_of
replay-packages st ps [] = refl
replay-packages st ps (r ∷ []) = refl
replay-packages st ps (r ∷ s ∷ rest) =
    let behind = replay-packages st ps (s ∷ rest) in rw behind refl

collect_all-index :
    (victims : List Package) (d : Depot)
    → (ps : List Package) × ((collect_all victims d).index ≡ record d.index { packages = ps })
unfolding collect_all collect
collect_all-index [] d = (d.index.packages, refl)
collect_all-index (p ∷ more) d = collect_all-index more (collect p d)

-- What a release reads to, by its chain.
reconstruct-chain :
    (st : Pool) (r : Release) (ids : List ℕ)
    → first (heads_release r.id) st.ring_heads ≡ none
    → reconstruct r st ≡ some ids
    → (chain : List Release) × (chain_from (checkpoint_every * 4 - 1) r st ≡ some chain)
      × (replay chain st ≡ ids)
unfolding reconstruct
reconstruct-chain st r ids f e = elim (Option-cases (chain_from (checkpoint_every * 4 - 1) r st)) [
  | inl g ↦ ground arith
  | inr (chain, g) ↦ (chain, g, ground arith)
]

chain-reconstruct :
    (st : Pool) (r : Release) (chain : List Release)
    → first (heads_release r.id) st.ring_heads ≡ none
    → chain_from (checkpoint_every * 4 - 1) r st ≡ some chain
    → reconstruct r st ≡ some (replay chain st)
unfolding reconstruct
chain-reconstruct st r chain f g = rw (f, g, reconstruct) refl

reconstruct-head :
    (st : Pool) (r : Release) (h : Head)
    → first (heads_release r.id) st.ring_heads ≡ some h
    → reconstruct r st ≡ some (ring_members h.ring st)
unfolding reconstruct
reconstruct-head st r h f = rw (f, reconstruct) refl

prune-rings :
    (kept : Retention) (st : Pool)
    → ((prune kept st).ring_heads ≡ st.ring_heads)
      × ((prune kept st).ring_packages ≡ st.ring_packages)
unfolding prune
prune-rings kept st = (refl, refl)

-- The number of releases of a ring that a run protects.
abbrev pub protects : ℕ → ℕ
protects keep = if ltb keep 1 then 1 else keep

-- A run of the retention keeps its promise: of a ring whose releases are in a line, each one's
-- parent the next older, and which has a checkpoint that is no newer than the oldest protected
-- release, every protected release is reconstructed to the packages that it was reconstructed to
-- before, whatever packages, checkpoints and deltas the run deleted.
pub handle_gc-reconstructs :
    (keep limit grace_days now : ℕ) (d : Depot) (ring : Ring) (oldest base r : Release)
    (ids : List ℕ)
    → Keyed d.index.releases
    → InLine d.index (select (λ x. ring_eq ring x.ring) d.index.releases)
    → last (rows_of (protects keep) d.index ring) ≡ some oldest
    → first (is_base ring oldest.seq) d.index.releases ≡ some base
    → Memᴰ r (rows_of (protects keep) d.index ring)
    → reconstruct r d.index ≡ some ids
    → reconstruct r (handle_gc keep limit grace_days now d).1.index ≡ some ids
unfolding handle_gc ring_members
handle_gc-reconstructs keep limit grace_days now d ring oldest base r ids keyed line l b m e =
    let st = d.index in
    let kept = retention (protects keep) st in
    let packages = unreferenced kept grace_days now st in
    let victims = take (if ltb 500 limit then 500 else limit) packages in
    let pruned : Depot = record d { index = prune kept st } in
    let (ps, shape) = collect_all-index victims pruned in
    let bare : Pool = record (prune kept st) { packages = ps } in
    let (heads, rings) = prune-rings kept st in
    let read : reconstruct r bare ≡ some ids =
      elim (Option-cases (first (heads_release r.id) st.ring_heads)) [
        | inr (h, f) ↦
            reconstruct-head bare r h (ap (first (heads_release r.id)) heads ∙ f)
            ∙ ap (λ rows. some (pinned (ring_eq h.ring) rows)) rings
            ∙ sym (reconstruct-head st r h f)
            ∙ e
        | inl f ↦
            let (chain, found, same) = reconstruct-chain st r ids f e in
            let (again, replayed) =
              chain-kept (protects keep) st ring oldest base keyed line l b
                (checkpoint_every * 4 - 1) r chain m found in
            let there =
              chain_from-packages (prune kept st) ps (checkpoint_every * 4 - 1) r ∙ again in
            chain-reconstruct bare r chain (ap (first (heads_release r.id)) heads ∙ f) there
            ∙ ap (λ x. some x) (replay-packages (prune kept st) ps chain ∙ replayed ∙ same)
      ] in
    subst (λ x. reconstruct r x ≡ some ids) (sym shape) read
