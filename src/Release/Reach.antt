-- ===== src/Release/Reach.antt =====
-- Reading a release returns: enough steps of ensureCheckpoint (worker/src/db.ts).
use omarchy_cli.Base.{
  ◌≤◌, Bool-cases, List, Option-cases, [], arith, first, inl, inr, some, suc, true, zero, ℕ, ◌∷◌,
  ◌≡◌, ◌⊎◌,
}
use omarchy_cli.Release.Checkpoint.{Keeps, release_members-Keeps}
use omarchy_cli.Release.Members.{
  chain_from, checkpoint_members, ensure_checkpoint, heads_release, is_release, reconstruct,
  release_members, replay, ring_members, write_checkpoint,
}
use omarchy_cli.Release.Replay.{History, Lists}
use omarchy_cli.Release.Rows.{Pool, Release}

-- So many parents lead back from the release to a checkpoint, each of them still there.
abbrev pub Reaches : Pool → ℕ → Release → Type 0
Reaches st zero r = r.checkpoint ≡ true
Reaches st (suc n) r =
    (r.checkpoint ≡ true)
    ⊎ ((q : ℕ) × (parent : Release) × (r.parent_id ≡ some q)
        × (first (is_release q) st.releases ≡ some parent)
        × Reaches st n parent)

chain_from-Reaches :
    (st : Pool) (n m : ℕ) (r : Release)
    → n ≤ m
    → Reaches st n r
    → (chain : List Release) × (chain_from m r st ≡ some chain)
unfolding chain_from
chain_from-Reaches st zero zero r le h = (r ∷ [], ground arith)
chain_from-Reaches st zero (suc m) r le h = (r ∷ [], ground arith)
chain_from-Reaches st (suc n) zero r le h = ground arith
chain_from-Reaches st (suc n) (suc m) r le (inl c) = (r ∷ [], ground arith)
chain_from-Reaches st (suc n) (suc m) r le (inr (q, parent, p, f, h)) =
    let (rest, s) = chain_from-Reaches st n m parent (omega arith) h in
    elim (Bool-cases r.checkpoint) [
      | inl c ↦ (r ∷ [], ground arith)
      | inr c ↦ (r ∷ rest, ground arith)
    ]

-- A release that is there, no more than 95 parents from a checkpoint, can be read.
release_members-returns :
    (st : Pool) (n id : ℕ) (r : Release)
    → first (is_release id) st.releases ≡ some r
    → n ≤ 95
    → Reaches st n r
    → (ids : List ℕ) × (st' : Pool) × (release_members id st ≡ some (ids, st'))
unfolding release_members ensure_checkpoint reconstruct
release_members-returns st n id r f le h =
    let (chain, c) = chain_from-Reaches st n 95 r le h in
    elim (Option-cases (first (heads_release id) st.ring_heads)) [
      | inr (head, g) ↦ (ring_members head.ring st, st, ground arith)
      | inl g ↦ elim (Bool-cases r.checkpoint) [
        | inl k ↦ (checkpoint_members id st, st, ground arith)
        | inr k ↦ elim (Option-cases (first (heads_release r.id) st.ring_heads)) [
          | inl d ↦
              let st' = write_checkpoint id (replay chain st) st in
              (checkpoint_members id st', st', ground arith)
          | inr (head, d) ↦
              let st' = write_checkpoint id (ring_members head.ring st) st in
              (checkpoint_members id st', st', ground arith)
        ]
      ]
    ]

-- Reading a release returns its selection. In a pool that keeps a history, releaseMembers of a
-- release that is there, with a checkpoint no more than 95 parents behind it, does not throw: it
-- lists, by the ring's live rows, the checkpoint or the deltas, the selection that the release was
-- made with, and the rows it writes on the way keep every other release's.
pub release_members-reads :
    (history : History) (st : Pool) (n id : ℕ) (r : Release)
    → Keeps history st
    → first (is_release id) st.releases ≡ some r
    → n ≤ 95
    → Reaches st n r
    → (ids : List ℕ) × (st' : Pool) × (release_members id st ≡ some (ids, st'))
      × Keeps history st'
      × Lists ids (history id)
release_members-reads history st n id r k f le h =
    let (ids, st', e) = release_members-returns st n id r f le h in
    let (kept, lists) = release_members-Keeps history st st' id ids k e in
    (ids, st', e, kept, lists)
