-- ===== src/Release/Members.antt =====
-- What a release holds: ringMembers, ringHead, releaseMembers and ensureCheckpoint of
-- worker/src/db.ts. An exception is `none`.
use omarchy_cli.Base.{
  Bool, List, Option, [], ◌∷◌, ◌==◌, ◌-◌, ◌*◌, if◌then◌else◌, ℕ, zero, suc, true, first, none, some,
  update, select, delete,
}
use omarchy_cli.Release.Selection.{pin, pinned}
use omarchy_cli.Release.Rows.{Delta, Head, Op, Pool, Release, Ring, ring_eq}

infixl 5 ◌>>=◌
abbrev ◌>>=◌ {ℓ κ} : {A : Type ℓ} {B : Type κ} → Option A → (A → Option B) → Option B
none >>= f = none
some a >>= f = f a

-- `CHECKPOINT_EVERY`
abbrev pub checkpoint_every : ℕ
checkpoint_every = 24

abbrev pub is_release : ℕ → Release → Bool
is_release id r = r.id == id

abbrev pub heads_ring : Ring → Head → Bool
heads_ring ring h = ring_eq ring h.ring

abbrev pub heads_release : ℕ → Head → Bool
heads_release id h = h.release_id == id

-- `ringMembers`
unfoldable pub ring_members : Ring → Pool → List ℕ
unfolding pinned
ring_members ring st = pinned (ring_eq ring) st.ring_packages

-- SELECT package_id FROM release_packages WHERE release_id = ?
unfoldable pub checkpoint_members : ℕ → Pool → List ℕ
unfolding pinned
checkpoint_members id st = pinned (λ k. k == id) st.release_packages

-- `ringHead`
unfoldable pub ring_head : Ring → Pool → Option Release
unfolding first
ring_head ring st = do
  h ← first (heads_ring ring) st.ring_heads
  first (is_release h.release_id) st.releases

-- One row of a delta on the set of ids.
unfoldable pub apply_delta : Delta → List ℕ → List ℕ
apply_delta d ids = elim d.op [
  | Op.remove ↦ delete (λ p. p == d.package_id) ids
  | Op.add ↦ d.package_id ∷ ids
]

unfoldable pub apply_deltas : List Delta → List ℕ → List ℕ
unfolding apply_delta
apply_deltas [] ids = ids
apply_deltas (d ∷ ds) ids = apply_delta d (apply_deltas ds ids)

unfoldable pub deltas_of : ℕ → Pool → List Delta
unfolding select
deltas_of id st = select (λ d. d.release_id == id) st.release_deltas

-- The chain from a release back to the nearest checkpoint. The number bounds the steps: the code
-- throws as soon as the chain is longer than it allows.
unfoldable pub chain_from : ℕ → Release → Pool → Option (List Release)
unfolding first
chain_from zero cur st = if cur.checkpoint then some (cur ∷ []) else none
chain_from (suc n) cur st =
    let behind : Option (List Release) = (do
      q ← cur.parent_id
      parent ← first (is_release q) st.releases
      chain_from n parent st) in
    if cur.checkpoint
    then some (cur ∷ [])
    else (elim behind [ none ↦ none | some rest ↦ some (cur ∷ rest) ])

-- The rows of the checkpoint that ends the chain, then each delta in front of it, oldest first.
unfoldable pub replay : List Release → Pool → List ℕ
unfolding checkpoint_members apply_deltas deltas_of
replay [] st = []
replay (r ∷ []) st = checkpoint_members r.id st
replay (r ∷ s ∷ rest) st = apply_deltas (deltas_of r.id st) (replay (s ∷ rest) st)

abbrev pub mark_checkpoint : Release → Release
mark_checkpoint r = record r { checkpoint = true }

-- The membership written out: INSERT OR IGNORE of the ids, UPDATE releases SET checkpoint = 1.
unfoldable pub write_checkpoint : ℕ → List ℕ → Pool → Pool
unfolding pin update
write_checkpoint id ids st = record st {
  release_packages = pin (λ k. k == id) id ids st.release_packages;
  releases = update (is_release id) mark_checkpoint st.releases;
}

-- The ids of a release that is no checkpoint: its ring's live ones where it is a head.
unfoldable pub reconstruct : Release → Pool → Option (List ℕ)
unfolding ring_members chain_from replay first
reconstruct start st = elim (first (heads_release start.id) st.ring_heads) [
  | some h ↦ some (ring_members h.ring st)
  | none ↦ elim (chain_from (checkpoint_every * 4 - 1) start st) [
    | none ↦ none
    | some chain ↦ some (replay chain st)
  ]
]

-- `ensureCheckpoint`
unfoldable pub ensure_checkpoint : ℕ → Pool → Option Pool
unfolding reconstruct write_checkpoint first
ensure_checkpoint id st = do
  start ← first (is_release id) st.releases
  if start.checkpoint then some st else (elim (reconstruct start st) [
    | none ↦ none
    | some ids ↦ some (write_checkpoint id ids st)
  ])

-- `releaseMembers`: the live selection of a head, or the checkpoint's rows.
unfoldable pub release_members : ℕ → Pool → Option (List ℕ × Pool)
unfolding ring_members checkpoint_members ensure_checkpoint first
release_members id st = elim (first (heads_release id) st.ring_heads) [
  | some h ↦ some (ring_members h.ring st, st)
  | none ↦ elim (ensure_checkpoint id st) [
    | none ↦ none
    | some st' ↦ some (checkpoint_members id st', st')
  ]
]
