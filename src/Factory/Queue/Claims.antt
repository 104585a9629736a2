-- ===== src/Factory/Queue/Claims.antt =====
-- What a claim takes: the first claimable row, and nothing else.
use omarchy_cli.Base.{
  All, Bool, Bool-cases, List, Memᴰ, Option, [], arith, false, inl, inr, none, refl, some, true,
  ◌∷◌, ◌≡◌, Option-cases, ap, update, ℕ, ◌∙◌, ◌≢◌, subst,
}
use omarchy_cli.Factory.Rows.{Task}
use omarchy_cli.Factory.Claim.{
  before, earlier, pick, Claimant, claim_next, claimable, lease, picked,
}
use omarchy_cli.Factory.Tests.{is_queued}

before_refl : (t : Task) → before t t ≡ true
before_refl t = ground arith

before_trans : (t u v : Task) → before t u ≡ true → before u v ≡ true → before t v ≡ true
before_trans t u v h k = ground arith

before_total : (t u : Task) → before t u ≡ false → before u t ≡ true
before_total t u h = ground arith

-- A row is at or behind the one picked, where the test selects it.
abbrev pub Behind : (Task → Bool) → Task → Task → Type 0
Behind test t u = test u ≡ true → before t u ≡ true

Behind-mono :
    (test : Task → Bool) (t u : Task) (ts : List Task)
    → before t u ≡ true
    → All (Behind test u) ts
    → All (Behind test t) ts
Behind-mono test t u [] h a = tt
Behind-mono test t u (v ∷ vs) h a =
    ((λ e. before_trans t u v h (a.0 e)), Behind-mono test t u vs h a.1)

-- The test selects no row.
abbrev pub Nothing : (Task → Bool) → List Task → Type 0
Nothing test = All (λ t. test t ≡ false)

Nothing-Behind :
    (test : Task → Bool) (t : Task) (ts : List Task) → Nothing test ts → All (Behind test t) ts
Nothing-Behind test t [] h = tt
Nothing-Behind test t (u ∷ us) h = ((λ e. cc), Nothing-Behind test t us h.1)

abbrev pub Picks : (Task → Bool) → List Task → Option Task → Type 0
Picks test ts none = Nothing test ts
Picks test ts (some t) = Memᴰ t ts × (test t ≡ true) × All (Behind test t) ts

earlier-Picks :
    (test : Task → Bool) (t : Task) (ts : List Task) (o : Option Task)
    → test t ≡ true
    → Picks test ts o
    → Picks test (t ∷ ts) (some (earlier t o))
unfolding earlier
earlier-Picks test t ts none h p =
    (Memᴰ.head refl, h, ((λ e. before_refl t), Nothing-Behind test t ts p))
earlier-Picks test t ts (some u) h p = elim (Bool-cases (before t u)) [
  | inl e ↦
      let first_one : t ≡ earlier t (some u) = rw (e, earlier) in
      subst (λ r. Picks test (t ∷ ts) (some r)) first_one
        (Memᴰ.head refl, h, ((λ k. before_refl t), Behind-mono test t u ts e p.2))
  | inr e ↦
      let other_one : u ≡ earlier t (some u) = rw (e, earlier) in
      subst (λ r. Picks test (t ∷ ts) (some r)) other_one
        (Memᴰ.tail p.0, p.1, ((λ k. before_total t u e), p.2))
]

Picks-skip :
    (test : Task → Bool) (t : Task) (ts : List Task) (o : Option Task)
    → test t ≡ false
    → Picks test ts o
    → Picks test (t ∷ ts) o
Picks-skip test t ts none h p = (h, p)
Picks-skip test t ts (some u) h p = (Memᴰ.tail p.0, p.1, ((λ k. cc), p.2))

-- The sub-select of a claim: a row of the table that the test selects, with the smallest priority
-- and among those the smallest id; nothing only where the test selects no row.
pub pick-Picks : (test : Task → Bool) (ts : List Task) → Picks test ts (pick test ts)
unfolding pick
pick-Picks test [] = tt
pick-Picks test (t ∷ ts) = elim (Bool-cases (test t)) [
  | inl e ↦ rw e (earlier-Picks test t ts (pick test ts) e (pick-Picks test ts))
  | inr e ↦ rw e (Picks-skip test t ts (pick test ts) e (pick-Picks test ts))
]

-- What the claim's one statement did: it leased the row picked, or found none and left the table.
abbrev pub Claimed : Claimant → List Task → Option Task × List Task → Type 0
Claimed c ts (none, ts') = (ts' ≡ ts) × Nothing (claimable c) ts
Claimed c ts (some u, ts') =
    (t : Task) × Memᴰ t ts
    × (claimable c t ≡ true)
    × All (Behind (claimable c) t) ts
    × (u ≡ lease c t)
    × (ts' ≡ update (picked t.id) (lease c) ts)

-- A claim leases a claimable task of the table that is first by priority and id among the
-- claimable ones, with the claimant as its holder; it finds none exactly where no task is
-- claimable, and then it leaves the table as it was.
pub claim_next-Claimed : (c : Claimant) (ts : List Task) → Claimed c ts (claim_next c ts)
unfolding claim_next
claim_next-Claimed c ts = elim (Option-cases (pick (claimable c) ts)) [
  | inl e ↦
      let none_there : Picks (claimable c) ts none =
        subst (Picks (claimable c) ts) e (pick-Picks (claimable c) ts) in
      rw (e, claim_next) (refl, none_there)
  | inr (t, e) ↦
      let found : Picks (claimable c) ts (some t) =
        subst (Picks (claimable c) ts) e (pick-Picks (claimable c) ts) in
      rw (e, claim_next) (t, found.0, found.1, found.2, refl, refl)
]

-- No row with this id is queued.
abbrev NotQueued : ℕ → Task → Type 0
NotQueued id t = t.id ≡ id → is_queued t.status ≡ false

lease-NotQueued :
    (c : Claimant) (id : ℕ) (ts : List Task) → All (NotQueued id) (update (picked id) (lease c) ts)
unfolding update lease
lease-NotQueued c id [] = tt
lease-NotQueued c id (t ∷ ts) = elim (Bool-cases (picked id t)) [
  | inl e ↦ rw e ((λ k. refl), lease-NotQueued c id ts)
  | inr e ↦ rw e ((λ k. ground arith), lease-NotQueued c id ts)
]

mem-All {κ} : (P : Task → Type κ) (t : Task) (ts : List Task) → Memᴰ t ts → All P ts → P t
mem-All P t [] m a = elim m [ ]
mem-All P t (u ∷ us) (Memᴰ.head e) a = rw e a.0
mem-All P t (u ∷ us) (Memᴰ.tail m) a = mem-All P t us m a.1

lease-id : (c : Claimant) (t : Task) → (lease c t).id ≡ t.id
unfolding lease
lease-id c t = refl

pub claimable-queued : (c : Claimant) (t : Task) → claimable c t ≡ true → is_queued t.status ≡ true
claimable-queued c t h = ground arith

-- Two claims one after the other, by any two claimants, never get the same task: what the first
-- leased is no longer queued.
pub claim_twice :
    (c d : Claimant) (ts : List Task) (t u : Task)
    → (claim_next c ts).0 ≡ some t
    → (claim_next d (claim_next c ts).1).0 ≡ some u
    → t.id ≢ u.id
claim_twice c d ts t u h k same =
    let (x, _, _, _, tx, left) = first_claim in
    let (y, my, cy, _, uy, _) = second_claim in
    let rows : Memᴰ y (update (picked x.id) (lease c) ts) = subst (Memᴰ y) left my in
    let shut = mem-All (NotQueued x.id) y _ rows (lease-NotQueued c x.id ts) in
    let idx : t.id ≡ x.id = ap (λ (r : Task). r.id) tx ∙ lease-id c x in
    let idy : u.id ≡ y.id = ap (λ (r : Task). r.id) uy ∙ lease-id d y in
    let queued : is_queued y.status ≡ true = claimable-queued d y cy in
    let gone : is_queued y.status ≡ false = shut (omega arith) in cc
  where
    first_claim : Claimed c ts (some t, (claim_next c ts).1)
    first_claim = subst (λ o. Claimed c ts (o, (claim_next c ts).1)) h (claim_next-Claimed c ts)

    second_claim : Claimed d (claim_next c ts).1 (some u, (claim_next d (claim_next c ts).1).1)
    second_claim =
        subst (λ o. Claimed d (claim_next c ts).1 (o, (claim_next d (claim_next c ts).1).1)) k
          (claim_next-Claimed d (claim_next c ts).1)
