-- ===== src/Governance/Table.antt =====
-- The table of maintainers behind applyGovernance, and what roleFor reads from it
-- (worker/src/governance.ts).
use omarchy_cli.Base.{
  Bool, Bool-cases, List, String, [], arith, delete, eq_iff, exists, inl, inr, not, refl, str_eq,
  subst, sym, true, ℕ, ◌||◌, ◌∙◌, ◌∷◌, ◌≡◌, some,
}
use omarchy_cli.Factory.Rows.{Contributor}
use omarchy_cli.Governance.{
  Maintainer, Roles, apply_governance, apply_role, apply_roles, insert_maintainer,
  insert_maintainers, listed, listed_role, role_for,
}

abbrev names_login : String → Maintainer → Bool
names_login login m = str_eq m.login login

str_eq_sym : (a b : String) → str_eq a b ≡ str_eq b a
str_eq_sym a b = elim (Bool-cases (str_eq a b)) [
  | inl e ↦ let same : a ≡ b = (eq_iff a b).0 e in rw same refl
  | inr e ↦ elim (Bool-cases (str_eq b a)) [
    | inr f ↦ rw (e, f) refl
    | inl f ↦
        let same : b ≡ a = (eq_iff b a).0 f in
        let both : str_eq a b ≡ true = (eq_iff a b).1 (sym same) in ground arith
  ]
]

-- A login is in the table behind an insert where it is the new one, or was there.
insert_maintainer-exists :
    (s login : String) (now : ℕ) (rows : List Maintainer)
    → exists (names_login login) (insert_maintainer s now rows)
      ≡ (str_eq s login || exists (names_login login) rows)
unfolding insert_maintainer exists
insert_maintainer-exists s login now rows = elim (Bool-cases (exists (names_login s) rows)) [
  | inr e ↦ rw e (ground arith)
  | inl e ↦ elim (Bool-cases (str_eq s login)) [
    | inr f ↦ rw (e, f) refl
    | inl f ↦
        let same : s ≡ login = (eq_iff s login).0 f in
        let here : exists (names_login login) rows ≡ true =
          subst (λ x. exists (names_login x) rows ≡ true) same e in
        rw (e, f, here) refl
  ]
]

insert_maintainers-exists :
    (names : List String) (login : String) (now : ℕ) (rows : List Maintainer)
    → exists (names_login login) (insert_maintainers names now rows)
      ≡ (listed login names || exists (names_login login) rows)
unfolding insert_maintainers listed exists
insert_maintainers-exists [] login now rows = refl
insert_maintainers-exists (s ∷ more) login now rows =
    let rest = insert_maintainers-exists more login now (insert_maintainer s now rows) in
    let one = insert_maintainer-exists s login now rows in
    let flip = str_eq_sym s login in ground arith

-- Whoever is kept is listed.
kept-listed :
    (names : List String) (login : String) (rows : List Maintainer)
    → exists (names_login login) (delete (λ m. not (listed m.login names)) rows) ≡ true
    → listed login names ≡ true
unfolding delete exists
kept-listed names login [] h = cc
kept-listed names login (m ∷ rows) h =
    let rest = kept-listed names login rows in
    elim (Bool-cases (listed m.login names)) [
      | inr e ↦ rest (ground arith)
      | inl e ↦ elim (Bool-cases (str_eq m.login login)) [
        | inl f ↦
            let same : m.login ≡ login = (eq_iff m.login login).0 f in
            subst (λ x. listed x names ≡ true) same e
        | inr f ↦ rest (ground arith)
      ]
    ]

apply_role-maintainers :
    (names : List String) (p : Contributor) (st : Roles)
    → (apply_role names p st).maintainers ≡ st.maintainers
unfolding apply_role
apply_role-maintainers names p st = ground arith

apply_roles-maintainers :
    (names : List String) (ps : List Contributor) (st : Roles)
    → (apply_roles names ps st).maintainers ≡ st.maintainers
unfolding apply_roles
apply_roles-maintainers names [] st = refl
apply_roles-maintainers names (p ∷ ps) st =
    apply_roles-maintainers names ps (apply_role names p st) ∙ apply_role-maintainers names p st

-- After a list of maintainers is applied, the table gives a login, registered or not, the role of
-- maintainer exactly where the list names it: who is not listed any more is gone from the table.
pub role_for-applied :
    (names : List String) (hash : String) (now : ℕ) (st : Roles) (login : String)
    → role_for login (apply_governance names hash now st).maintainers ≡ listed_role login names
unfolding apply_governance role_for
role_for-applied names hash now st login =
    let kept = delete (λ m. not (listed m.login names)) st.maintainers in
    let inserted = insert_maintainers-exists names login now kept in
    let next : Roles = record st {
      maintainers = insert_maintainers names now kept;
      governance_sha256 = some hash;
    } in
    let same = apply_roles-maintainers names st.contributors next in
    let exact : exists (names_login login) (insert_maintainers names now kept)
        ≡ listed login names =
      elim (Bool-cases (listed login names)) [
        | inl e ↦ rw (inserted, e) refl
        | inr e ↦ elim (Bool-cases (exists (names_login login) kept)) [
          | inr f ↦ rw (inserted, e, f) refl
          | inl f ↦ let never = kept-listed names login st.maintainers f in ground arith
        ]
      ] in
    rw (same, exact) refl
