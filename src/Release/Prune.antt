-- ===== src/Release/Prune.antt =====
-- A release whose chain the retention leaves intact is read as before (worker/src/routes/gc.ts,
-- worker/src/db.ts).
use omarchy_cli.Base.{
  All, Bool, Bool-cases, List, Option-cases, [], ap, arith, exists, false, first, inl, inr, leb,
  not, some, subst, suc, sym, update, zero, ℕ, ◌&&◌, ◌==◌, ◌∷◌, ◌≡◌, delete, refl, select, true,
  ◌∙◌,
}
use omarchy_cli.Release.Members.{chain_from, is_release, checkpoint_members, deltas_of, replay}
use omarchy_cli.Release.Retention.{Retention, id_in, prune, drop_deltas}
use omarchy_cli.Release.Rows.{Pool, Release, Ring, ring_eq, Delta}
use omarchy_cli.Release.Kept.{select-delete}
use omarchy_cli.Release.Selection.{Pin, pinned}

-- The release keeps its mark.
abbrev pub loses_mark : Retention → Release → Bool
loses_mark kept r = r.checkpoint && not (id_in r.id kept.kept_checkpoints)

-- The deltas of a release go.
abbrev pub drops : Pool → ℕ → Ring × ℕ → Bool
drops st id (ring, seq) =
    exists (λ r. r.id == id && ring_eq ring r.ring && leb r.seq seq) st.releases

first-update_kept :
    (q : ℕ) (test : Release → Bool) (change : Release → Release) (rs : List Release) (row : Release)
    → ((r : Release) → (change r).id ≡ r.id)
    → test row ≡ false
    → first (is_release q) rs ≡ some row
    → first (is_release q) (update test change rs) ≡ some row
unfolding first update
first-update_kept q test change [] row same skip e = ground arith
first-update_kept q test change (r ∷ rs) row same skip e =
    let rest = first-update_kept q test change rs row same skip in
    let id = same r in
    elim (Bool-cases (is_release q r)) [
      | inl h ↦
          let it : r ≡ row = ground arith in
          let unchanged : test r ≡ false = subst (λ x. test x ≡ false) (sym it) skip in
          rw unchanged (rw h (ap (λ x. some x) it))
      | inr h ↦ elim (Bool-cases (test r)) [
        | inl x ↦ rw x (rw (id, h) (rest (ground arith)))
        | inr x ↦ rw x (rw h (rest (ground arith)))
      ]
    ]

-- A chain begins at its release.
chain_from-shape :
    (st : Pool) (n : ℕ) (r : Release) (chain : List Release)
    → chain_from n r st ≡ some chain
    → (rest : List Release) × (r ∷ rest ≡ chain)
unfolding chain_from
chain_from-shape st zero r chain e = ([], ground arith)
chain_from-shape st (suc n) r chain e = elim (Bool-cases r.checkpoint) [
  | inl c ↦ ([], ground arith)
  | inr c ↦ elim (Option-cases r.parent_id) [
    | inl p ↦ ground arith
    | inr (q, p) ↦ elim (Option-cases (first (is_release q) st.releases)) [
      | inl f ↦ ground arith
      | inr (parent, f) ↦ elim (Option-cases (chain_from n parent st)) [
        | inl g ↦ ground arith
        | inr (rest, g) ↦ (rest, ground arith)
      ]
    ]
  ]
]

chain_from-step :
    (st : Pool) (n : ℕ) (r : Release) (q : ℕ) (parent : Release) (rest : List Release)
    → r.checkpoint ≡ false
    → r.parent_id ≡ some q
    → first (is_release q) st.releases ≡ some parent
    → chain_from n parent st ≡ some rest
    → chain_from (suc n) r st ≡ some (r ∷ rest)
unfolding chain_from
chain_from-step st n r q parent rest c p f g = ground arith

chain_from-head {κ} :
    (P : Release → Type κ) (st : Pool) (n : ℕ) (r : Release) (chain : List Release)
    → chain_from n r st ≡ some chain
    → All P chain
    → P r
chain_from-head P st n r chain e h =
    let (rest, shape) = chain_from-shape st n r chain e in
    let begins : P r × All P rest = subst (All P) (sym shape) h in begins.0

-- Every release of the chain keeps its mark: the chain is found as it was.
pub chain_from-prune :
    (kept : Retention) (st : Pool) (n : ℕ) (r : Release) (chain : List Release)
    → chain_from n r st ≡ some chain
    → All (λ c. loses_mark kept c ≡ false) chain
    → chain_from n r (prune kept st) ≡ some chain
unfolding chain_from prune
chain_from-prune kept st zero r chain e h = e
chain_from-prune kept st (suc n) r chain e h = elim (Bool-cases r.checkpoint) [
  | inl c ↦ ground arith
  | inr c ↦ elim (Option-cases r.parent_id) [
    | inl p ↦ ground arith
    | inr (q, p) ↦ elim (Option-cases (first (is_release q) st.releases)) [
      | inl f ↦ ground arith
      | inr (parent, f) ↦ elim (Option-cases (chain_from n parent st)) [
        | inl g ↦ ground arith
        | inr (rest, g) ↦
            let shape : r ∷ rest ≡ chain = ground arith in
            let stays : (loses_mark kept r ≡ false) × All (λ c. loses_mark kept c ≡ false) rest =
              subst (All (λ c. loses_mark kept c ≡ false)) (sym shape) h in
            let there = chain_from-head _ st n parent rest g stays.1 in
            let found : first (is_release q) (prune kept st).releases ≡ some parent =
              first-update_kept q (loses_mark kept) (λ x. record x { checkpoint = false })
                st.releases parent (λ x. refl) there f in
            let again = chain_from-prune kept st n parent rest g stays.1 in
            chain_from-step (prune kept st) n r q parent rest c p found again
            ∙ ap (λ x. some x) shape
      ]
    ]
  ]
]

drop_deltas-kept :
    (st : Pool) (id : ℕ) (cuts : List (Ring × ℕ)) (deltas : List Delta)
    → All (λ cut. drops st id cut ≡ false) cuts
    → select (λ d. d.release_id == id) (drop_deltas cuts st.releases deltas)
      ≡ select (λ d. d.release_id == id) deltas
unfolding drop_deltas
drop_deltas-kept st id [] deltas h = refl
drop_deltas-kept st id ((ring, seq) ∷ more) deltas (stays, h) =
    let test : Delta → Bool =
      λ d. exists (λ r. r.id == d.release_id && ring_eq ring r.ring && leb r.seq seq) st.releases in
    drop_deltas-kept st id more (delete test deltas) h
    ∙ select-delete (λ d. d.release_id == id) test deltas
        (λ d e. elim (Bool-cases (d.release_id == id)) [
          | inr f ↦ f
          | inl f ↦
              let same : d.release_id ≡ id = ground arith in
              let gone : drops st id (ring, seq) ≡ true =
                subst (λ x. drops st x (ring, seq) ≡ true) same e in
              ground arith
        ])

pinned-delete :
    (id : ℕ) (ids : List ℕ) (rows : List (Pin ℕ))
    → id_in id ids ≡ true
    → pinned (λ k. k == id) (delete (λ m. not (id_in m.key ids)) rows) ≡ pinned (λ k. k == id) rows
unfolding pinned delete
pinned-delete id ids [] h = refl
pinned-delete id ids (m ∷ rows) h =
    let rest = pinned-delete id ids rows h in
    elim (Bool-cases (id_in m.key ids)) [
      | inl e ↦ rw e (rw rest refl)
      | inr e ↦ elim (Bool-cases (m.key == id)) [
        | inr f ↦ rw (e, f) rest
        | inl f ↦
            let same : m.key ≡ id = ground arith in
            let kept : id_in m.key ids ≡ true = subst (λ x. id_in x ids ≡ true) (sym same) h in
            ground arith
      ]
    ]

-- The chain ends at a kept checkpoint, and the deltas in front of it stay.
abbrev pub Intact : Retention → Pool → List Release → Type 0
Intact kept st [] = Unit
Intact kept st (r ∷ []) = id_in r.id kept.kept_checkpoints ≡ true
Intact kept st (r ∷ s ∷ rest) =
    All (λ cut. drops st r.id cut ≡ false) kept.checkpoint_seq × Intact kept st (s ∷ rest)

pub replay-prune :
    (kept : Retention) (st : Pool) (chain : List Release)
    → Intact kept st chain
    → replay chain (prune kept st) ≡ replay chain st
unfolding replay prune checkpoint_members deltas_of
replay-prune kept st [] h = refl
replay-prune kept st (r ∷ []) h = pinned-delete r.id kept.kept_checkpoints st.release_packages h
replay-prune kept st (r ∷ s ∷ rest) (d, h) =
    let behind = replay-prune kept st (s ∷ rest) h in
    let mine = drop_deltas-kept st r.id kept.checkpoint_seq st.release_deltas d in
    rw (mine, behind) refl
