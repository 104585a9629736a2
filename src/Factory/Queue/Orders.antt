-- ===== src/Factory/Queue/Orders.antt =====
-- The row of an order, once it is queued, stays the order's whatever is queued, claimed or beaten
-- (enqueue of worker/src/routes/factory.ts).
use omarchy_cli.Base.{
  Bool-cases, List, Option-cases, [], ap, arith, eq_refl, first, inl, inr, refl, some, true, ℕ, ◌∷◌,
  ◌≡◌, text_eq_refl, Bool, update, text_eq-eq, eq_iff,
}
use omarchy_cli.Factory.Rows.{Arch, Store, Task}
use omarchy_cli.Factory.Enqueue.{
  Order, blank_task, enqueue, enqueue_one, insert_task, order_task, same_order,
}
use omarchy_cli.Factory.Tests.{arch_eq}

arch_eq_refl : (a : Arch) → arch_eq a a ≡ true
arch_eq_refl Arch.x86_64 = refl
arch_eq_refl Arch.aarch64 = refl

order_task-same_order :
    (t : Order) (arch : Arch) (now id : ℕ) → same_order t arch (order_task t arch now id) ≡ true
unfolding order_task blank_task
order_task-same_order t arch now id =
    ground (arith, eq_refl t.name, text_eq_refl t.pkgbuild_ref, arch_eq_refl arch)

-- An order's row is there for the architecture, under this id.
abbrev pub QueuedIn : Order → Arch → ℕ → List Task → Type 0
QueuedIn t arch id ts = (u : Task) × (first (same_order t arch) ts ≡ some u) × (u.id ≡ id)

abbrev pub Queued : Order → Arch → ℕ → Store → Type 0
Queued t arch id st = QueuedIn t arch id st.tasks

order_task-id : (t : Order) (arch : Arch) (now id : ℕ) → (order_task t arch now id).id ≡ id
unfolding order_task blank_task
order_task-id t arch now id = refl

enqueue_one-Queued :
    (t : Order) (arch : Arch) (now : ℕ) (st : Store)
    → Queued t arch (enqueue_one t arch now st).0 (enqueue_one t arch now st).1
unfolding enqueue_one insert_task first
enqueue_one-Queued t arch now st = elim (Option-cases (first (same_order t arch) st.tasks)) [
  | inl e ↦
      let row : Task = order_task t arch now st.next_task in
      rw (e, enqueue_one)
        (
          row,
          rw (order_task-same_order t arch now st.next_task) refl,
          order_task-id t arch now st.next_task,
        )
  | inr (u, e) ↦ rw (e, enqueue_one) (u, e, refl)
]

arch_eq-eq : (a b : Arch) → arch_eq a b ≡ true → a ≡ b
arch_eq-eq a b h = ground arith

-- An order whose new row is another order's too finds the open rows that the other finds.
order_task-same_first :
    (t s : Order) (a b : Arch) (now id : ℕ) (ts : List Task)
    → same_order t b (order_task s a now id) ≡ true
    → first (same_order t b) ts ≡ first (same_order s a) ts
unfolding order_task blank_task
order_task-same_first t s a b now id ts h =
    let name : s.name ≡ t.name = (eq_iff s.name t.name).0 (ground arith) in
    let arch : a ≡ b = arch_eq-eq a b (ground arith) in
    let ref : s.pkgbuild_ref ≡ t.pkgbuild_ref =
      text_eq-eq s.pkgbuild_ref t.pkgbuild_ref (ground arith) in
    rw (name, arch, ref) refl

-- A row in front of the table that is not the order's does not hide the order's.
enqueue_one-Queued_other :
    (t s : Order) (a b : Arch) (now id : ℕ) (st : Store)
    → Queued t b id st
    → Queued t b id (enqueue_one s a now st).1
unfolding enqueue_one insert_task first
enqueue_one-Queued_other t s a b now id st (u, q, i) =
    elim (Option-cases (first (same_order s a) st.tasks)) [
      | inr (v, e) ↦ rw (e, enqueue_one) (u, q, i)
      | inl e ↦ elim (Bool-cases (same_order t b (order_task s a now st.next_task))) [
        | inl same ↦
            let found = order_task-same_first t s a b now st.next_task st.tasks same in
            absurd (ground arith)
        | inr other ↦ rw (e, enqueue_one) (u, rw other q, i)
      ]
    ]

-- Every architecture of the list has its row, with the id that was answered.
abbrev pub AllQueued : Order → List Arch → List ℕ → Store → Type 0
AllQueued t [] [] st = Unit {0}
AllQueued t [] (i ∷ ids) st = ⊥
AllQueued t (a ∷ arches) [] st = ⊥
AllQueued t (a ∷ arches) (i ∷ ids) st = Queued t a i st × AllQueued t arches ids st

pub Queued-enqueue :
    (t s : Order) (arches : List Arch) (b : Arch) (now id : ℕ) (st : Store)
    → Queued t b id st
    → Queued t b id (enqueue s arches now st).1
unfolding enqueue
Queued-enqueue t s [] b now id st q = q
Queued-enqueue t s (a ∷ arches) b now id st q =
    Queued-enqueue t s arches b now id (enqueue_one s a now st).1
      (enqueue_one-Queued_other t s a b now id st q)

pub enqueue-AllQueued :
    (t : Order) (arches : List Arch) (now : ℕ) (st : Store)
    → AllQueued t arches (enqueue t arches now st).0 (enqueue t arches now st).1
unfolding enqueue
enqueue-AllQueued t [] now st = tt
enqueue-AllQueued t (a ∷ arches) now st =
    let st' : Store = (enqueue_one t a now st).1 in
    (
      Queued-enqueue t t arches a now (enqueue_one t a now st).0 st'
          (enqueue_one-Queued t a now st),
      enqueue-AllQueued t arches now st',
    )

pub enqueue_queued :
    (t : Order) (arches : List Arch) (ids : List ℕ) (now : ℕ) (st : Store)
    → AllQueued t arches ids st
    → enqueue t arches now st ≡ (ids, st)
unfolding enqueue enqueue_one
enqueue_queued t [] [] now st q = refl
enqueue_queued t [] (i ∷ ids) now st q = elim q [ ]
enqueue_queued t (a ∷ arches) [] now st q = elim q [ ]
enqueue_queued t (a ∷ arches) (i ∷ ids) now st q =
    let (u, e, same) = q.0 in
    let one : enqueue_one t a now st ≡ (i, st) =
      rw (e, enqueue_one) (ap (λ (k : ℕ). (k, st)) same) in
    rw (one, enqueue) (rw (enqueue_queued t arches ids now st q.1))

-- A change of rows that leaves the order's row what it was, but for its lease.
abbrev pub KeepsOrder : Order → Arch → (Task → Bool) → (Task → Task) → Type 0
KeepsOrder t arch test change =
    (u : Task)
    → test u ≡ true
    → ((change u).id ≡ u.id) × (same_order t arch (change u) ≡ same_order t arch u)

pub update-Queued :
    (t : Order) (arch : Arch) (id : ℕ) (test : Task → Bool) (change : Task → Task) (ts : List Task)
    → KeepsOrder t arch test change
    → QueuedIn t arch id ts
    → QueuedIn t arch id (update test change ts)
unfolding first update
update-Queued t arch id test change [] keeps (u, q, i) = ground arith
update-Queued t arch id test change (v ∷ vs) keeps (u, q, i) =
    let rest = λ (w : QueuedIn t arch id vs). update-Queued t arch id test change vs keeps w in
    elim (Bool-cases (test v)) [
      | inl x ↦ elim (Bool-cases (same_order t arch v)) [
        | inl y ↦ let (same, still) = keeps v x in rw x (change v, rw (still, y) refl, ground arith)
        | inr y ↦
            let (same, still) = keeps v x in
            let there : first (same_order t arch) vs ≡ some u = ground arith in
            let (w, found, named) = rest (u, there, i) in rw x (w, rw (still, y) found, named)
      ]
      | inr x ↦ elim (Bool-cases (same_order t arch v)) [
        | inl y ↦ rw x (v, rw y refl, ground arith)
        | inr y ↦
            let there : first (same_order t arch) vs ≡ some u = ground arith in
            let (w, found, named) = rest (u, there, i) in rw x (w, rw y found, named)
      ]
    ]
