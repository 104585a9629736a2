-- ===== src/Blocks/People.antt =====
-- What a block of a contributor leaves, and who may lift it (worker/src/routes/blocks.ts).
use omarchy_cli.Base.{
  All, Bool, Bool-cases, List, String, Text, [], false, inl, inr, none, not, some, str_eq, update,
  ℕ, ◌&&◌, ◌∷◌, ◌≡◌, arith, true, update-All, Option, Option-cases, eq_refl, first, is_some,
  first-All, first-test,
}
use omarchy_cli.Blocks.Contributors.{
  block_contributor_store, builds_for, is_login, revoke, works_for, audit_with, Clock,
  handle_block_contributor, handle_unblock_contributor, noted, put_record, reason_of,
}
use omarchy_cli.Factory.Complete.Build.{superseded}
use omarchy_cli.Factory.Rows.{Contributor, Registration, Store, Stage, Event}
use omarchy_cli.Factory.Chains.{answer-Answers, or_refuse-Answers, require-Answers}
use omarchy_cli.Factory.Reply.{answer, refuse, Reply-cases}
use omarchy_cli.Review.Decide.{is_maintainer}

-- What holds of the rows that an update changes and of those that it skips holds of all.
update-each {ℓ κ} :
    {A : Type ℓ}
    → (P : A → Type κ) (test : A → Bool) (change : A → A) (xs : List A)
    → ((x : A) → test x ≡ true → P (change x))
    → ((x : A) → test x ≡ false → P x)
    → All P (update test change xs)
unfolding update
update-each P test change [] h k = tt
update-each P test change (x ∷ xs) h k = elim (Bool-cases (test x)) [
  | inl e ↦ rw e (h x e, update-each P test change xs h k)
  | inr e ↦ rw e (k x e, update-each P test change xs h k)
]

abbrev blocked_by : String → Contributor → Bool
blocked_by login c = elim c.blocked [ some b ↦ str_eq b.by login | none ↦ false ]

-- A contributor with this login whose row does not say that `by` blocked it.
abbrev pub is_at_large : String → String → Contributor → Bool
is_at_large login by p = is_login login p && not (blocked_by by p)

abbrev is_rejected : Stage → Bool
is_rejected Stage.rejected = true
is_rejected _ = false

-- A package of the login that is not rejected.
abbrev pub is_held : String → Registration → Bool
is_held login p = str_eq p.owner login && not (is_rejected p.status)

-- The block of `login` by `by` as the store shows it.
pub record Shut (login by : String) (st : Store) : Type 0 where
  pub builds : All (λ t. builds_for login t ≡ false) st.tasks
  pub workers : All (λ w. works_for login w ≡ false) st.workers
  pub people : All (λ p. is_at_large login by p ≡ false) st.contributors
  pub packages : All (λ p. is_held login p ≡ false) st.registrations

block_contributor_store-Shut :
    (c : Contributor) (login : String) (reason : Text) (now : ℕ) (st : Store)
    → Shut login c.login (block_contributor_store c login reason now st)
unfolding block_contributor_store superseded revoke
block_contributor_store-Shut c login reason now st = record {
  builds =
      update-All (λ t. builds_for login t ≡ false) (audit_with "owner" login) _ _
        (λ t e h. ground arith)
        (update-each _ (builds_for login) _ st.tasks (λ t e. ground arith) (λ t e. e));
  workers =
      update-each _ (works_for login) (revoke now) st.workers (λ w e. ground arith) (λ w e. e);
  people =
      update-each _ (is_login login) _ st.contributors (λ p e. ground (arith, eq_refl c.login))
        (λ p e. ground arith);
  packages =
      update-each _ (λ p. str_eq p.owner login) _ st.registrations (λ p e. ground arith)
        (λ p e. ground arith);
}

noted-Shut :
    (login by : String) (key bytes : Text) (line : Event) (st : Store)
    → Shut login by st
    → Shut login by (noted key bytes line st).1
unfolding noted
noted-Shut login by key bytes line st h = elim (Option-cases (put_record key bytes st.pool)) [
  | inl e ↦ rw (e, noted) h
  | inr (pool, e) ↦
      rw (e, noted)
        (record {
          builds = h.builds;
          workers = h.workers;
          people = h.people;
          packages = h.packages;
        })
]

-- Behind an answered block of a contributor, whether its record was written or not: none of their
-- builds is queued, leased or staged, none of their workers is accepted, every package of theirs
-- is rejected, and their row names the maintainer who blocked them.
pub handle_block_contributor-Shut :
    (clock : Clock) (c : Contributor) (login : String) (reason : Option Text) (now : ℕ) (st : Store)
    (wrote : Bool) (st' : Store)
    → handle_block_contributor clock c login reason now st ≡ answer (wrote, st')
    → Shut login c.login st'
unfolding handle_block_contributor
handle_block_contributor-Shut clock c login reason now st wrote st' e =
    let P : Bool × Store → Type 0 = λ r. Shut login c.login r.1 in
    require-Answers P (is_maintainer c) 403 _
      (λ m. or_refuse-Answers P (reason_of reason) 400 _ (λ why w.
        require-Answers P (not (str_eq login c.login)) 400 _ (λ s.
          or_refuse-Answers P (first (is_login login) st.contributors) 404 _ (λ who f.
            require-Answers P (not (is_maintainer who)) 409 _ (λ o.
              require-Answers P (not (is_some who.blocked)) 409 _ (λ b. answer-Answers P _ (
                noted-Shut login c.login _ _ _ (block_contributor_store c login why now st)
                  (block_contributor_store-Shut c login why now st))))))))
      (wrote, st') e

-- Who blocked a contributor does not lift the block: right behind it, their own request to lift it
-- is refused, at any time and for any reason.
pub handle_block_contributor-kept :
    (clock : Clock) (c : Contributor) (login : String) (reason excuse : Option Text) (now later : ℕ)
    (st : Store) (wrote : Bool) (st' : Store)
    → handle_block_contributor clock c login reason now st ≡ answer (wrote, st')
    → (n : ℕ) × (handle_unblock_contributor clock c login excuse later st' ≡ refuse n)
unfolding handle_unblock_contributor
handle_block_contributor-kept clock c login reason excuse now later st wrote st' e =
    let shut = handle_block_contributor-Shut clock c login reason now st wrote st' e in
    let P : Bool × Store → Type 0 = λ r. true ≡ false in
    let never : (x : Bool × Store)
        → handle_unblock_contributor clock c login excuse later st' ≡ answer x
        → true ≡ false =
      require-Answers P (is_maintainer c) 403 _ (λ m.
        or_refuse-Answers P (reason_of excuse) 400 _ (λ why w.
          or_refuse-Answers P (first (is_login login) st'.contributors) 409 _ (λ who f.
            or_refuse-Answers P who.blocked 409 _ (λ block b.
              require-Answers P (not (str_eq block.by c.login)) 403 _ (λ other.
                let found = first-test (is_login login) st'.contributors who f in
                let mine = first-All _ (is_login login) st'.contributors who shut.people f in
                ground arith))))) in
    elim (Reply-cases (handle_unblock_contributor clock c login excuse later st')) [
      | inr r ↦ r
      | inl (x, f) ↦ let clash : true ≡ false = never x f in cc
    ]
