-- ===== src/Auth/Staging.antt =====
-- What the token of a build that only stages may do (worker/src/jobtoken.ts, auth.ts).
use omarchy_cli.Base.{
  Bool, Bool-cases, Text, [], arith, codes, decimal, decimal_from, exists, false, inl, inr, leb,
  ltb, not, refl, subst, suc, text_eq-eq, true, zero, ℕ, ◌%◌, ◌&&◌, ◌++◌, ◌+◌, ◌/◌, ◌∷◌, ◌≡◌, ◌⊎◌,
}
use omarchy_cli.Factory.Rows.{Kind, Params, Trust}
use omarchy_cli.Auth.{covers, ends_star, may}
use omarchy_cli.Factory.Tests.{is_project}
use omarchy_cli.Token.Scopes.{is_review, kind_scopes, scopes_for}

-- The last character of a text is a digit.
abbrev ends_digit : Text → Bool
ends_digit [] = false
ends_digit (c ∷ []) = leb b'0' c && leb c b'9'
ends_digit (c ∷ d ∷ s) = ends_digit (d ∷ s)

decimal_from-ends :
    (fuel n : ℕ) (rest : Text)
    → ends_digit rest ≡ true
    → ends_digit (decimal_from fuel n rest) ≡ true
unfolding decimal_from
decimal_from-ends zero n rest h = h
decimal_from-ends (suc fuel) n [] h = cc
decimal_from-ends (suc fuel) n (c ∷ s) h =
    ground (arith, decimal_from-ends fuel (n / 10) ((b'0' + n % 10) ∷ c ∷ s))

decimal-ends : (n : ℕ) → ends_digit (decimal n) ≡ true
unfolding decimal decimal_from
decimal-ends n = elim (Bool-cases (ltb n 10)) [
  | inl e ↦ rw e (ground arith)
  | inr e ↦ rw e (decimal_from-ends n (n / 10) ((b'0' + n % 10) ∷ []) (ground arith))
]

ends_digit-append : (s t : Text) → ends_digit t ≡ true → ends_digit (s ++ t) ≡ true
ends_digit-append [] t h = h
ends_digit-append (c ∷ []) [] h = cc
ends_digit-append (c ∷ []) (d ∷ t) h = h
ends_digit-append (c ∷ d ∷ s) t h = ends_digit-append (d ∷ s) t h

ends_digit-ends_star : (s : Text) → ends_digit s ≡ true → ends_star s ≡ false
unfolding ends_star
ends_digit-ends_star [] h = refl
ends_digit-ends_star (c ∷ []) h = refl
ends_digit-ends_star (c ∷ d ∷ []) h = ground arith
ends_digit-ends_star (c ∷ d ∷ e ∷ s) h = ends_digit-ends_star (d ∷ e ∷ s) h

-- A scope that ends in a number covers itself alone.
covers_number :
    (prefix : Text) (n : ℕ) (asked : Text)
    → covers asked (prefix ++ decimal n) ≡ true
    → prefix ++ decimal n ≡ asked
unfolding covers
covers_number prefix n asked h = text_eq-eq _ _ (
    ground (
      arith,
      ends_digit-ends_star (prefix ++ decimal n) (ends_digit-append prefix _ (decimal-ends n)),
    ))

covers_events : (asked : Text) → covers asked (codes "events") ≡ true → codes "events" ≡ asked
unfolding covers ends_star
covers_events asked h = text_eq-eq _ _ (ground arith)

-- The build's own scopes: its task, the journal, its staging area.
abbrev pub OwnScope : ℕ → Text → Type 0
OwnScope id asked =
    (codes "task:" ++ decimal id ≡ asked)
    ⊎ (codes "events" ≡ asked)
    ⊎ (codes "staging:" ++ decimal id ≡ asked)

three_scopes :
    (id : ℕ) (asked : Text)
    → may
        ((codes "task:" ++ decimal id) ∷ codes "events" ∷ (codes "staging:" ++ decimal id) ∷ [])
        asked
      ≡ true
    → OwnScope id asked
unfolding may exists
three_scopes id asked h = elim (Bool-cases (covers asked (codes "task:" ++ decimal id))) [
  | inl a ↦ inl (covers_number (codes "task:") id asked a)
  | inr a ↦ elim (Bool-cases (covers asked (codes "events"))) [
    | inl b ↦ inr (inl (covers_events asked b))
    | inr b ↦ inr (inr (covers_number (codes "staging:") id asked (ground arith)))
  ]
]

-- The token of a contributor's build, or of the project's review build, may act on its own task,
-- write the journal and upload to its own staging area, and nothing else: whatever scope a route
-- asks for, no wildcard in the token covers it.
pub staging_build-OwnScope :
    (id : ℕ) (trust : Trust) (params : Params) (asked : Text)
    → (is_project trust && not (is_review params)) ≡ false
    → may (scopes_for Kind.build id trust params) asked ≡ true
    → OwnScope id asked
unfolding scopes_for
staging_build-OwnScope id Trust.community params asked staged h = three_scopes id asked h
staging_build-OwnScope id Trust.project params asked staged h =
    let review : is_review params ≡ true = ground arith in
    let same : kind_scopes Kind.build id Trust.project params
        ≡ (codes "staging:" ++ decimal id) ∷ [] =
      unfold kind_scopes in rw review in
    three_scopes id asked
      (subst (λ l. may ((codes "task:" ++ decimal id) ∷ codes "events" ∷ l) asked ≡ true) same h)
