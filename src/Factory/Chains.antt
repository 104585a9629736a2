-- ===== src/Factory/Chains.antt =====
-- A handler's guards, one after the other: what holds of the store before the handler, and of what
-- it writes behind its guards, holds after it.
use omarchy_cli.Base.{Bool, Option, false, none, some, true, ℕ, refl, ◌≡◌, ap, subst}
use omarchy_cli.Factory.Reply.{Reply, after, or_refuse, require, ◌>>=◌, ◌>>◌, answer, refuse}

-- `P` holds of the store behind the request.
module _ {ℓ κ μ} {A : Type ℓ} {S : Type κ} (P : S → Type μ) (st : S) where
  pub require-after :
      (b : Bool) (n : ℕ) (k : Reply (A × S))
      → P st
      → P (after st k)
      → P (after st (require b n >> k))
  require-after true n k h g = g
  require-after false n k h g = h

  pub or_refuse-after {ν} :
      {B : Type ν}
      → (o : Option B) (n : ℕ) (f : B → Reply (A × S)) → P st
      → ((b : B) → P (after st (f b)))
      → P (after st (or_refuse o n >>= f))
  or_refuse-after none n f h g = h
  or_refuse-after (some b) n f h g = g b

  -- With the equation of what was found.
  pub or_refuse-found {ν} :
      {B : Type ν}
      → (o : Option B) (n : ℕ) (f : B → Reply (A × S)) → P st
      → ((b : B) → o ≡ some b → P (after st (f b)))
      → P (after st (or_refuse o n >>= f))
  or_refuse-found none n f h g = h
  or_refuse-found (some b) n f h g = g b refl

-- Whatever a handler answers satisfies `P`.
module _ {ℓ κ} {X : Type ℓ} (P : X → Type κ) where
  abbrev pub Answers : Reply X → Type (ℓ ⊔ κ)
  Answers r = (x : X) → r ≡ answer x → P x

  pub answer-Answers : (a : X) → P a → Answers (answer a)
  answer-Answers a p x e = subst P (ap (λ r. elim r [ answer y ↦ y | refuse n ↦ a ]) e) p

  pub require-Answers :
      (b : Bool) (n : ℕ) (k : Reply X) → (b ≡ true → Answers k) → Answers (require b n >> k)
  require-Answers true n k h x e = h refl x e
  require-Answers false n k h x e = cc

  pub or_refuse-Answers {ν} :
      {B : Type ν}
      → (o : Option B) (n : ℕ) (f : B → Reply X) → ((b : B) → o ≡ some b → Answers (f b))
      → Answers (or_refuse o n >>= f)
  or_refuse-Answers none n f h x e = cc
  or_refuse-Answers (some b) n f h x e = h b refl x e
