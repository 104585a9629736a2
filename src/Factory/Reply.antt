-- ===== src/Factory/Reply.antt =====
-- What a handler answers: its value, or an HTTP status that refuses the request. A refusal
-- carries no store, since no handler here writes before it refuses.
use omarchy_cli.Base.{Bool, Option, false, none, some, true, ℕ, inl, inr, refl, ◌≡◌, ◌⊎◌}

pub data Reply {ℓ} (A : Type ℓ) : Type ℓ where
  answer : A → Reply A
  refuse : ℕ → Reply A

infixl 5 ◌>>=◌ ◌>>◌
abbrev pub ◌>>=◌ {ℓ κ} : {A : Type ℓ} {B : Type κ} → Reply A → (A → Reply B) → Reply B
answer a >>= f = f a
refuse n >>= f = refuse n

abbrev pub ◌>>◌ {ℓ} : {B : Type ℓ} → Reply (Unit {0}) → Reply B → Reply B
m >> k = m >>= λ _. k

-- `if (!test) return json({ error }, status)`
abbrev pub require : Bool → ℕ → Reply (Unit {0})
require true n = answer tt
require false n = refuse n

abbrev pub or_refuse {ℓ} : {A : Type ℓ} → Option A → ℕ → Reply A
or_refuse none n = refuse n
or_refuse (some a) n = answer a

-- The store behind a request: a refused one changed nothing.
abbrev pub after {ℓ κ} : {A : Type ℓ} {S : Type κ} → S → Reply (A × S) → S
after s (answer (a, s')) = s'
after s (refuse n) = s

pub Reply-cases {ℓ} :
    {A : Type ℓ} (r : Reply A) → ((a : A) × (r ≡ answer a)) ⊎ ((n : ℕ) × (r ≡ refuse n))
Reply-cases (answer a) = inl (a, refl)
Reply-cases (refuse n) = inr (n, refl)
