-- ===== src/Release/Replay.antt =====
-- Reconstruction gives the selection that was released (ensureCheckpoint of worker/src/db.ts).
use omarchy_cli.Base.{
  All, Bool, Bool-cases, List, inl, inr, some, suc, true, zero, ℕ, ◌≡◌, Option-cases, [], arith,
  false, first, first-All, first-test, subst, sym, ◌*◌, ◌-◌, ◌∷◌,
}
use omarchy_cli.Release.Selection.{holds}
use omarchy_cli.Release.Rows.{Pool, Head, Release}
use omarchy_cli.Release.Members.{
  chain_from, apply_deltas, checkpoint_members, deltas_of, replay, ring_members, checkpoint_every,
  heads_release, is_release, reconstruct,
}

-- What each release was made to hold: a release's id and a package's.
abbrev pub History : Type 0
History = ℕ → ℕ → Bool

-- The list is the selection.
abbrev pub Lists : List ℕ → (ℕ → Bool) → Type 0
Lists ids chosen = (p : ℕ) → holds p ids ≡ chosen p

-- A checkpoint's rows are the release's selection.
abbrev pub CheckpointKept : History → Pool → Release → Type 0
CheckpointKept history st r =
    r.checkpoint ≡ true → Lists (checkpoint_members r.id st) (history r.id)

-- A release's delta takes its parent's selection to its own.
abbrev pub DeltaKept : History → Pool → Release → Type 0
DeltaKept history st r =
    (q : ℕ) (ids : List ℕ)
    → r.parent_id ≡ some q
    → Lists ids (history q)
    → Lists (apply_deltas (deltas_of r.id st) ids) (history r.id)

abbrev pub ReleaseKept : History → Pool → Release → Type 0
ReleaseKept history st r = CheckpointKept history st r × DeltaKept history st r

-- A ring serves its head's selection.
abbrev pub HeadKept : History → Pool → Head → Type 0
HeadKept history st h = Lists (ring_members h.ring st) (history h.release_id)

-- A chain that is longer than its first release goes on with its parent.
chain_from_cons :
    (st : Pool) (n : ℕ) (r : Release) (chain : List Release)
    → r.checkpoint ≡ false
    → chain_from (suc n) r st ≡ some chain
    → (q : ℕ) × (parent : Release) × (rest : List Release) × (r.parent_id ≡ some q)
      × (first (is_release q) st.releases ≡ some parent)
      × (chain_from n parent st ≡ some rest)
      × (r ∷ rest ≡ chain)
unfolding chain_from
chain_from_cons st n r chain c e = elim (Option-cases r.parent_id) [
  | inl p ↦ ground arith
  | inr (q, p) ↦ elim (Option-cases (first (is_release q) st.releases)) [
    | inl f ↦ ground arith
    | inr (parent, f) ↦ elim (Option-cases (chain_from n parent st)) [
      | inl s ↦ ground arith
      | inr (rest, s) ↦ (q, parent, rest, p, f, s, ground arith)
    ]
  ]
]

-- A chain is never empty.
chain_from-some :
    (st : Pool) (n : ℕ) (r : Release) (rest : List Release)
    → chain_from n r st ≡ some rest
    → (more : List Release) × (rest ≡ r ∷ more)
unfolding chain_from
chain_from-some st zero r rest e = ([], ground arith)
chain_from-some st (suc n) r rest e = elim (Bool-cases r.checkpoint) [
  | inl c ↦ ([], ground arith)
  | inr c ↦ let (_, _, more, _, _, _, same) = chain_from_cons st n r rest c e in (more, sym same)
]

pub first-id :
    (q : ℕ) (rs : List Release) (r : Release) → first (is_release q) rs ≡ some r → r.id ≡ q
first-id q rs r e = let t = first-test (is_release q) rs r e in ground arith

pub chain_from-Lists :
    (history : History) (st : Pool) (n : ℕ) (r : Release) (chain : List Release)
    → All (ReleaseKept history st) st.releases
    → ReleaseKept history st r
    → chain_from n r st ≡ some chain
    → Lists (replay chain st) (history r.id)
unfolding chain_from replay
chain_from-Lists history st zero r chain all h e = elim (Bool-cases r.checkpoint) [
  | inl c ↦
      let same : r ∷ [] ≡ chain = ground arith in
      subst (λ l. Lists (replay l st) (history r.id)) same (h.0 c)
  | inr c ↦ ground arith
]
chain_from-Lists history st (suc n) r chain all h e = elim (Bool-cases r.checkpoint) [
  | inl c ↦
      let same : r ∷ [] ≡ chain = ground arith in
      subst (λ l. Lists (replay l st) (history r.id)) same (h.0 c)
  | inr c ↦
      let (q, parent, rest, p, f, s, same) = chain_from_cons st n r chain c e in
      let (more, shape) = chain_from-some st n parent rest s in
      let kept : ReleaseKept history st parent =
        first-All (ReleaseKept history st) (is_release q) st.releases parent all f in
      let ih : Lists (replay rest st) (history parent.id) =
        chain_from-Lists history st n parent rest all kept s in
      let ih' : Lists (replay (parent ∷ more) st) (history q) =
        subst (λ l. Lists (replay l st) (history q)) shape
          (subst (λ i. Lists (replay rest st) (history i)) (first-id q st.releases parent f) ih) in
      subst (λ l. Lists (replay l st) (history r.id)) same
        (subst (λ l. Lists (replay (r ∷ l) st) (history r.id)) (sym shape)
          (h.1 q (replay (parent ∷ more) st) p ih'))
]

-- The selection that ensureCheckpoint writes out is the one that was released.
pub reconstruct-Lists :
    (history : History) (st : Pool) (r : Release) (ids : List ℕ)
    → All (HeadKept history st) st.ring_heads
    → All (ReleaseKept history st) st.releases
    → ReleaseKept history st r
    → reconstruct r st ≡ some ids
    → Lists ids (history r.id)
unfolding reconstruct
reconstruct-Lists history st r ids heads all h e =
    elim (Option-cases (first (heads_release r.id) st.ring_heads)) [
      | inl none_head ↦ elim (Option-cases (chain_from (checkpoint_every * 4 - 1) r st)) [
        | inl c ↦ ground arith
        | inr (chain, c) ↦
            let same : replay chain st ≡ ids = ground arith in
            subst (λ l. Lists l (history r.id)) same
              (chain_from-Lists history st (checkpoint_every * 4 - 1) r chain all h c)
      ]
      | inr (head, f) ↦
          let kept : HeadKept history st head =
            first-All (HeadKept history st) (heads_release r.id) st.ring_heads head heads f in
          let t = first-test (heads_release r.id) st.ring_heads head f in
          let at : head.release_id ≡ r.id = ground arith in
          let same : ring_members head.ring st ≡ ids = ground arith in
          subst (λ l. Lists l (history r.id)) same
            (subst (λ i. Lists (ring_members head.ring st) (history i)) at kept)
    ]
