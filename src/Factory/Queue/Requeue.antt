-- ===== src/Factory/Queue/Requeue.antt =====
-- The loop of requeueExpiredLeases is one update of the rows whose lease expired.
use omarchy_cli.Base.{
  Bool-cases, List, [], ap, arith, false, inl, inr, refl, select, true, update, ℕ, ◌&&◌, ◌∙◌, ◌∷◌,
  ◌≡◌, ◌≤◌,
}
use omarchy_cli.Factory.Rows.{Store, Task}
use omarchy_cli.Factory.Lease.{expired, requeue_all, requeue_expired, requeue_one, requeue_task}
use omarchy_cli.Factory.Queue.Keys.{Below, select-Below, update_above}
use omarchy_cli.Factory.Tests.{has_id, is_leased}

-- What the loop does to the table of tasks.
requeue_rows : ℕ → List Task → List Task → List Task
requeue_rows now [] tasks = tasks
requeue_rows now (t ∷ ts) tasks =
    requeue_rows now ts
      (update (λ u. has_id t.id u && is_leased u.status) (requeue_task now t) tasks)

requeue_all-tasks :
    (now : ℕ) (ts : List Task) (st : Store)
    → (requeue_all now ts st).tasks ≡ requeue_rows now ts st.tasks
unfolding requeue_all requeue_one requeue_rows
requeue_all-tasks now [] st = refl
requeue_all-tasks now (t ∷ ts) st = requeue_all-tasks now ts (requeue_one now t st)

-- Rounds for rows with smaller ids leave the head of the table.
requeue_rows-cons :
    (now n : ℕ) (ts : List Task) (x : Task) (rest : List Task)
    → Below n ts
    → n ≤ x.id
    → requeue_rows now ts (x ∷ rest) ≡ x ∷ requeue_rows now ts rest
unfolding requeue_rows update
requeue_rows-cons now n [] x rest b h = refl
requeue_rows-cons now n (t ∷ ts) x rest b h =
    let other : has_id t.id x ≡ false = ground arith in
    rw other (requeue_rows-cons now t.id ts x _ b.1 (omega arith))

requeue_task-id : (now : ℕ) (t u : Task) → (requeue_task now t u).id ≡ u.id
unfolding requeue_task
requeue_task-id now t u = refl

-- The round of an expired head changes the head alone.
requeue_rows_head :
    (now : ℕ) (ts : List Task) (x : Task) (xs : List Task)
    → expired now x ≡ true
    → Below x.id xs
    → requeue_rows now (x ∷ ts) (x ∷ xs) ≡ requeue_rows now ts (requeue_task now x x ∷ xs)
unfolding requeue_rows update
requeue_rows_head now ts x xs e b =
    let mine : (has_id x.id x && is_leased x.status) ≡ true = ground arith in
    let others : update (λ u. has_id x.id u && is_leased u.status) (requeue_task now x) xs ≡ xs =
      update_above (λ u. is_leased u.status) (requeue_task now x) x.id x.id xs b (omega arith) in
    rw (mine, others)

requeue_rows-update :
    (now n : ℕ) (tasks : List Task)
    → Below n tasks
    → requeue_rows now (select (expired now) tasks) tasks
      ≡ update (expired now) (λ t. requeue_task now t t) tasks
unfolding update select
requeue_rows-update now n [] b = unfold requeue_rows in refl
requeue_rows-update now n (x ∷ xs) b =
    let later = select-Below (expired now) x.id xs b.1 in
    let rest = requeue_rows-update now x.id xs b.1 in
    let ts : List Task = select (expired now) xs in
    elim (Bool-cases (expired now x)) [
      | inl e ↦ rw e (
          requeue_rows_head now ts x xs e b.1
          ∙ requeue_rows-cons now x.id ts (requeue_task now x x) xs later
              (omega (arith, requeue_task-id now x x))
          ∙ ap (◌∷◌ (requeue_task now x x)) rest)
      | inr e ↦ rw e (requeue_rows-cons now x.id ts x xs later (omega arith) ∙ ap (◌∷◌ x) rest)
    ]

-- On a table whose ids were given once, the tasks after requeueExpiredLeases are the tasks before
-- with every row whose lease expired requeued, or failed when its attempts are used up; all other
-- rows are as they were.
pub requeue_expired-tasks :
    (now n : ℕ) (st : Store)
    → Below n st.tasks
    → (requeue_expired now st).1.tasks ≡ update (expired now) (λ t. requeue_task now t t) st.tasks
unfolding requeue_expired
requeue_expired-tasks now n st b =
    requeue_all-tasks now (select (expired now) st.tasks) st ∙ requeue_rows-update now n st.tasks b

requeue_task-expired : (now : ℕ) (t : Task) → expired now (requeue_task now t t) ≡ false
unfolding requeue_task
requeue_task-expired now t = ground arith

none_expired :
    (now : ℕ) (ts : List Task)
    → select (expired now) (update (expired now) (λ t. requeue_task now t t) ts) ≡ []
unfolding select update
none_expired now [] = refl
none_expired now (t ∷ ts) = elim (Bool-cases (expired now t)) [
  | inl e ↦ rw (e, requeue_task-expired now t) (none_expired now ts)
  | inr e ↦ rw (e, e) (none_expired now ts)
]

-- After requeueExpiredLeases no task holds an expired lease: run again at the same time, it finds
-- none.
pub requeue_expired_again :
    (now n : ℕ) (st : Store)
    → Below n st.tasks
    → (requeue_expired now (requeue_expired now st).1).0 ≡ 0
unfolding requeue_expired
requeue_expired_again now n st b =
    rw (requeue_all-tasks now (select (expired now) st.tasks) st)
      (rw (requeue_rows-update now n st.tasks b) (rw (none_expired now st.tasks)))
