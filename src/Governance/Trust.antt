-- ===== src/Governance/Trust.antt =====
-- What applying the list of maintainers leaves: applyGovernance of worker/src/governance.ts.
use omarchy_cli.Base.{
  All, Bool, Bool-cases, List, String, [], arith, eq_iff, exists, false, inl, inr, not, refl,
  str_eq, true, update, ◌&&◌, ◌||◌, ◌∷◌, ◌≡◌, eq_refl, ℕ,
}
use omarchy_cli.Factory.Rows.{Contributor, Role}
use omarchy_cli.Governance.{Roles, apply_role, apply_roles, listed_role, role_eq, apply_governance}

-- A role that is what the list says.
abbrev pub is_ruled : List String → Contributor → Bool
is_ruled names c = role_eq c.role (listed_role c.login names)

-- A registered contributor whose role is to be written, of this login.
abbrev corrects : List String → Contributor → Contributor → Bool
corrects names c p = str_eq c.login p.login && not (is_ruled names p)

-- The row is right, or a row that is to come puts it right.
abbrev Settles : List String → List Contributor → Contributor → Type 0
Settles names ps c = (is_ruled names c || exists (corrects names c) ps) ≡ true

role_eq_refl : (r : Role) → role_eq r r ≡ true
role_eq_refl Role.maintainer = refl
role_eq_refl Role.contributor = refl

Settles-ruled :
    (names : List String) (ps : List Contributor) (c : Contributor)
    → is_ruled names c ≡ true
    → Settles names ps c
Settles-ruled names ps c e = rw e refl

-- The row of a registered contributor, behind the update of that contributor.
Settles-next :
    (names : List String) (p c : Contributor) (ps : List Contributor)
    → Settles names (p ∷ ps) c
    → str_eq c.login p.login ≡ false
    → Settles names ps c
unfolding exists
Settles-next names p c ps h e = ground arith

Settles-skip :
    (names : List String) (p c : Contributor) (ps : List Contributor)
    → Settles names (p ∷ ps) c
    → is_ruled names p ≡ true
    → Settles names ps c
unfolding exists
Settles-skip names p c ps h e = ground arith

Settles-update :
    (names : List String) (p : Contributor) (ps cs : List Contributor)
    → All (Settles names (p ∷ ps)) cs
    → All (Settles names ps) (
        update
          (λ c. str_eq c.login p.login)
          (λ c. record c { role = listed_role p.login names })
          cs)
unfolding update
Settles-update names p ps [] h = tt
Settles-update names p ps (c ∷ cs) (s, h) =
    let rest = Settles-update names p ps cs h in
    elim (Bool-cases (str_eq c.login p.login)) [
      | inr e ↦ rw e (Settles-next names p c ps s e, rest)
      | inl e ↦
          let same : c.login ≡ p.login = (eq_iff c.login p.login).0 e in
          let made : Contributor = record c { role = listed_role p.login names } in
          let ruled : is_ruled names made ≡ true =
            rw same (role_eq_refl (listed_role p.login names)) in
          rw e (Settles-ruled names ps made ruled, rest)
    ]

All-skip :
    (names : List String) (p : Contributor) (ps cs : List Contributor)
    → is_ruled names p ≡ true
    → All (Settles names (p ∷ ps)) cs
    → All (Settles names ps) cs
All-skip names p ps [] e h = tt
All-skip names p ps (c ∷ cs) e (s, h) = (Settles-skip names p c ps s e, All-skip names p ps cs e h)

apply_roles-Settles :
    (names : List String) (ps : List Contributor) (st : Roles)
    → All (Settles names ps) st.contributors
    → All (Settles names []) (apply_roles names ps st).contributors
unfolding apply_roles apply_role
apply_roles-Settles names [] st h = h
apply_roles-Settles names (p ∷ ps) st h = elim (Bool-cases (is_ruled names p)) [
  | inl e ↦
      rw (e, apply_roles, apply_role)
        (apply_roles-Settles names ps st (All-skip names p ps st.contributors e h))
  | inr e ↦
      rw (e, apply_roles, apply_role)
        (apply_roles-Settles names ps _ (Settles-update names p ps st.contributors h))
]

-- At first every row that is wrong is among those to come.
Settles-self :
    (names : List String) (ps cs : List Contributor)
    → ((c : Contributor)
        → exists (corrects names c) cs ≡ true
        → exists (corrects names c) ps ≡ true)
    → All (Settles names ps) cs
unfolding exists
Settles-self names ps [] sub = tt
Settles-self names ps (c ∷ cs) sub =
    let mine = eq_refl c.login in
    let rest = Settles-self names ps cs (λ d h.
      sub d
        (elim (Bool-cases (corrects names d c)) [ inl e ↦ rw e refl | inr e ↦ rw (e, h) refl ])) in
    elim (Bool-cases (is_ruled names c)) [
      | inl e ↦ (Settles-ruled names ps c e, rest)
      | inr e ↦ (rw (e, sub c (rw (mine, e) refl)) refl, rest)
    ]

role_eq-≡ : (r s : Role) → role_eq r s ≡ true → r ≡ s
role_eq-≡ Role.maintainer Role.maintainer e = refl
role_eq-≡ Role.maintainer Role.contributor e = cc
role_eq-≡ Role.contributor Role.maintainer e = cc
role_eq-≡ Role.contributor Role.contributor e = refl

-- Everybody's role is what the list says.
abbrev pub Ruled : List String → Contributor → Type 0
Ruled names c = c.role ≡ listed_role c.login names

All-Ruled :
    (names : List String) (cs : List Contributor) → All (Settles names []) cs → All (Ruled names) cs
unfolding exists
All-Ruled names [] h = tt
All-Ruled names (c ∷ cs) (s, h) =
    let ruled : is_ruled names c ≡ true = ground arith in
    (role_eq-≡ c.role (listed_role c.login names) ruled, All-Ruled names cs h)

-- After a list of maintainers is applied, every registered contributor is a maintainer where the
-- list names the login, and a contributor otherwise, whatever the roles were.
pub apply_governance-Ruled :
    (names : List String) (hash : String) (now : ℕ) (st : Roles)
    → All (Ruled names) (apply_governance names hash now st).contributors
unfolding apply_governance
apply_governance-Ruled names hash now st = All-Ruled names _ (
    apply_roles-Settles names st.contributors _
      (Settles-self names st.contributors st.contributors (λ c h. h)))
