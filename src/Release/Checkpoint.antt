-- ===== src/Release/Checkpoint.antt =====
-- Writing a checkpoint out changes what no release holds (ensureCheckpoint and releaseMembers of
-- worker/src/db.ts).
use omarchy_cli.Base.{
  All, ◌<◌, Bool, Bool-cases, List, [], arith, false, inl, inr, true, ℕ, ◌==◌, ◌∷◌, ◌≡◌, All-map,
  subst, sym, update, update-All, Option-cases, first, first-All, first-test, some,
}
use omarchy_cli.Release.Selection.{Pin, pin, pinned, holds-pin, pinned-pin, holds, new_pin}
use omarchy_cli.Release.Replay.{
  HeadKept, ReleaseKept, History, Lists, CheckpointKept, first-id, reconstruct-Lists,
}
use omarchy_cli.Release.Members.{
  checkpoint_members, write_checkpoint, is_release, mark_checkpoint, deltas_of, ensure_checkpoint,
  heads_release, reconstruct, release_members, ring_members,
}
use omarchy_cli.Release.Rows.{Pool, Release}

-- A row of release_packages is a package of its release.
abbrev pub PinKept : History → Pin ℕ → Type 0
PinKept history k = history k.key k.package_id ≡ true

-- A release and its parent are older than the next one.
abbrev pub RowOld : ℕ → Release → Type 0
RowOld next r = (r.id < next) × ((q : ℕ) → r.parent_id ≡ some q → q < next)

-- No row is about a release that is not there yet.
abbrev pub IsOld : Pool → Type 0
IsOld st =
    All (RowOld st.next_release) st.releases
    × All (λ d. d.release_id < st.next_release) st.release_deltas
    × All (λ k. k.key < st.next_release) st.release_packages
    × All (λ h. h.release_id < st.next_release) st.ring_heads

-- The pool keeps the history: heads, checkpoints and deltas all tell the selections of it.
abbrev pub Keeps : History → Pool → Type 0
Keeps history st =
    All (HeadKept history st) st.ring_heads
    × All (ReleaseKept history st) st.releases
    × All (PinKept history) st.release_packages
    × IsOld st

pub pin-All :
    {K : Type 0} (P : Pin K → Type 0) (test : K → Bool) (key : K) (ids : List ℕ)
    (rows : List (Pin K))
    → ((p : ℕ) → holds p ids ≡ true → P (new_pin key p))
    → All P rows
    → All P (pin test key ids rows)
unfolding pin holds
pin-All P test key [] rows new old = old
pin-All P test key (id ∷ ids) rows new old =
    let rest = pin-All P test key ids rows (λ p h. new p (ground arith)) old in
    elim (Bool-cases (holds id (pinned test (pin test key ids rows)))) [
      | inl e ↦ rw (e, pin) rest
      | inr e ↦ rw (e, pin) (new id (ground arith), rest)
    ]

pinned-PinKept :
    (history : History) (id p : ℕ) (rows : List (Pin ℕ))
    → All (PinKept history) rows
    → holds p (pinned (λ k. k == id) rows) ≡ true
    → history id p ≡ true
unfolding pinned holds
pinned-PinKept history id p [] all h = cc
pinned-PinKept history id p (r ∷ rows) all h =
    grind (arith, pinned-PinKept history id p rows all.1, all.0)

write_checkpoint-members :
    (history : History) (st : Pool) (id : ℕ) (ids : List ℕ)
    → All (PinKept history) st.release_packages
    → Lists ids (history id)
    → Lists (checkpoint_members id (write_checkpoint id ids st)) (history id)
unfolding checkpoint_members write_checkpoint
write_checkpoint-members history st id ids all h p =
    let now = holds-pin p (λ k. k == id) id ids st.release_packages (ground arith) in
    ground (arith, h p, now, pinned-PinKept history id p st.release_packages all)

write_checkpoint-other :
    (st : Pool) (id other : ℕ) (ids : List ℕ)
    → (other == id) ≡ false
    → checkpoint_members other (write_checkpoint id ids st) ≡ checkpoint_members other st
unfolding checkpoint_members write_checkpoint
write_checkpoint-other st id other ids h =
    pinned-pin (λ k. k == other) (λ k. k == id) id ids st.release_packages (ground arith)

write_checkpoint-CheckpointKept :
    (history : History) (st : Pool) (id : ℕ) (ids : List ℕ) (r : Release)
    → All (PinKept history) st.release_packages
    → Lists ids (history id)
    → (((r.id == id) ≡ false) → CheckpointKept history st r)
    → CheckpointKept history (write_checkpoint id ids st) r
write_checkpoint-CheckpointKept history st id ids r all h old c = elim (Bool-cases (r.id == id)) [
  | inl e ↦
      let same : id ≡ r.id = ground arith in
      subst (λ i. Lists (checkpoint_members i (write_checkpoint id ids st)) (history i)) same
        (write_checkpoint-members history st id ids all h)
  | inr e ↦
      subst (λ l. Lists l (history r.id)) (sym (write_checkpoint-other st id r.id ids e)) (old e c)
]

write_checkpoint-ReleaseKept :
    (history : History) (st : Pool) (id : ℕ) (ids : List ℕ)
    → All (PinKept history) st.release_packages
    → Lists ids (history id)
    → All (ReleaseKept history st) st.releases
    → All
        (ReleaseKept history (write_checkpoint id ids st))
        (update (is_release id) mark_checkpoint st.releases)
unfolding write_checkpoint deltas_of
write_checkpoint-ReleaseKept history st id ids all h rows =
    let st' = write_checkpoint id ids st in
    update-All (ReleaseKept history st') (is_release id) mark_checkpoint st.releases
      (λ r t k. (
        write_checkpoint-CheckpointKept history st id ids (mark_checkpoint r) all h
            (λ e. ground arith),
        k.1,
      ))
      (All-map (ReleaseKept history st) (ReleaseKept history st') st.releases
        (λ r k. (write_checkpoint-CheckpointKept history st id ids r all h (λ e. k.0), k.1)) rows)

pub write_checkpoint-Keeps :
    (history : History) (st : Pool) (id : ℕ) (ids : List ℕ)
    → id < st.next_release
    → Lists ids (history id)
    → Keeps history st
    → Keeps history (write_checkpoint id ids st)
unfolding write_checkpoint ring_members deltas_of checkpoint_members
write_checkpoint-Keeps history st id ids lt h
      (heads, rows, pins, (ids_old, ds_old, ps_old, hs_old)) =
    (
      heads,
      write_checkpoint-ReleaseKept history st id ids pins h rows,
      pin-All (PinKept history) (λ k. k == id) id ids st.release_packages
          (λ p e. ground (arith, h p)) pins,
      (
        update-All (RowOld st.next_release) (is_release id) mark_checkpoint st.releases (λ r t k. k)
            ids_old,
        ds_old,
        pin-All (λ k. k.key < st.next_release) (λ k. k == id) id ids st.release_packages (λ p e. lt)
            ps_old,
        hs_old,
      ),
    )

-- What ensureCheckpoint leaves behind: the history, and rows that are the release's selection.
pub ensure_checkpoint-Keeps :
    (history : History) (st st' : Pool) (id : ℕ)
    → Keeps history st
    → ensure_checkpoint id st ≡ some st'
    → Keeps history st' × Lists (checkpoint_members id st') (history id)
unfolding ensure_checkpoint
ensure_checkpoint-Keeps history st st' id (heads, rows, pins, old) e =
    elim (Option-cases (first (is_release id) st.releases)) [
      | inl f ↦ ground arith
      | inr (r, f) ↦
          let at : r.id ≡ id = first-id id st.releases r f in
          let kept : ReleaseKept history st r =
            first-All (ReleaseKept history st) (is_release id) st.releases r rows f in
          elim (Bool-cases r.checkpoint) [
            | inl c ↦
                let same : st ≡ st' = ground arith in
                subst (λ s. Keeps history s × Lists (checkpoint_members id s) (history id)) same
                  (
                    (heads, rows, pins, old),
                    subst (λ i. Lists (checkpoint_members i st) (history i)) at (kept.0 c),
                  )
            | inr c ↦ elim (Option-cases (reconstruct r st)) [
              | inl x ↦ ground arith
              | inr (ids, x) ↦
                  let same : write_checkpoint id ids st ≡ st' = ground arith in
                  let lists : Lists ids (history id) =
                    subst (λ i. Lists ids (history i)) at
                      (reconstruct-Lists history st r ids heads rows kept x) in
                  let lt : RowOld st.next_release r =
                    first-All (RowOld st.next_release) (is_release id) st.releases r old.0 f in
                  subst (λ s. Keeps history s × Lists (checkpoint_members id s) (history id)) same
                    (
                      write_checkpoint-Keeps history st id ids
                          (subst (λ i. i < st.next_release) at lt.0) lists (heads, rows, pins, old),
                      write_checkpoint-members history st id ids pins lists,
                    )
            ]
          ]
    ]

-- In a pool that keeps a history, what releaseMembers lists of a release, by its ring's live rows,
-- its checkpoint or the deltas behind it, is the selection that the release was made with; and
-- the rows that it writes on the way leave every other release's as it was.
pub release_members-Keeps :
    (history : History) (st st' : Pool) (id : ℕ) (ids : List ℕ)
    → Keeps history st
    → release_members id st ≡ some (ids, st')
    → Keeps history st' × Lists ids (history id)
unfolding release_members
release_members-Keeps history st st' id ids k e =
    elim (Option-cases (first (heads_release id) st.ring_heads)) [
      | inl f ↦ elim (Option-cases (ensure_checkpoint id st)) [
        | inl x ↦ ground arith
        | inr (s, x) ↦
            let same : (checkpoint_members id s, s) ≡ (ids, st') = ground arith in
            subst (λ (i, s). Keeps history s × Lists i (history id)) same
              (ensure_checkpoint-Keeps history st s id k x)
      ]
      | inr (head, f) ↦
          let kept : HeadKept history st head =
            first-All (HeadKept history st) (heads_release id) st.ring_heads head k.0 f in
          let t = first-test (heads_release id) st.ring_heads head f in
          let at : head.release_id ≡ id = ground arith in
          let same : (ring_members head.ring st, st) ≡ (ids, st') = ground arith in
          subst (λ (i, s). Keeps history s × Lists i (history id)) same
            (k, subst (λ i. Lists (ring_members head.ring st) (history i)) at kept)
    ]
