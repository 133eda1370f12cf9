-- ===== src/Prelude/Outcome.antt =====
-- How a call of the runtime ends. The last four do not return to the caller.
use Prim.Native.Nat.{ℕ}
use mathlib.Core.Bool.{Bool, true, false}
use loke.Prelude.Tests.{if◌then◌else◌}
use mathlib.Core.Path.{◌≡◌, refl, ap, ◌∙◌}

-- `panic` is `loke_rt_v1_panic`, `abort` is `loke_rt_v1_abort`, `exited` is `exit` with a status,
-- and `overrun` is an access outside a buffer, which the C code does not define.
pub data Outcome {ℓ} (A : Type ℓ) : Type ℓ where
  ok : A → Outcome A
  panic : Outcome A
  abort : Outcome A
  exited : ℕ → Outcome A
  overrun : Outcome A

infixl 5 ◌>>=◌
abbrev pub ◌>>=◌ {ℓ κ} : {A : Type ℓ} {B : Type κ} → Outcome A → (A → Outcome B) → Outcome B
ok a >>= f = f a
panic >>= f = panic
abort >>= f = abort
exited n >>= f = exited n
overrun >>= f = overrun

-- A sequence that answers did so in both its parts.
pub bind-ok :
    {A B : Type 0} (m : Outcome A) (f : A → Outcome B) (b : B)
    → (m >>= f) ≡ ok b
    → (a : A) × (m ≡ ok a) × (f a ≡ ok b)
bind-ok (ok a) f b e = (a, refl, e)
bind-ok panic f b e = absurd (cc)
bind-ok abort f b e = absurd (cc)
bind-ok (exited n) f b e = absurd (cc)
bind-ok overrun f b e = absurd (cc)

pub ok_injective : {A : Type 0} {a b : A} → ok a ≡ ok b → a ≡ b
ok_injective e = cc

-- The call comes back to its caller, with a result of which `P` holds.
pub record Returns {A : Type 0} (m : Outcome A) (P : A → Type 0) : Type 0 where
  pub value : A
  pub equals : m ≡ ok value
  pub holds : P value

module _ {A B : Type 0} {P : A → Type 0} {Q : B → Type 0} where
  pub Returns-bind :
      {m : Outcome A} {f : A → Outcome B}
      → Returns m P
      → ((a : A) → P a → Returns (f a) Q)
      → Returns (m >>= f) Q
  Returns-bind {m} {f} r k =
      let s = k r.value r.holds in
      record { value = s.value; equals = ap (λ o. o >>= f) r.equals ∙ s.equals; holds = s.holds }

module _ {A : Type 0} {P Q : A → Type 0} where
  pub Returns-map : {m : Outcome A} → Returns m P → ((a : A) → P a → Q a) → Returns m Q
  Returns-map r k = record { value = r.value; equals = r.equals; holds = k r.value r.holds }

module _ {A : Type 0} {P : A → Type 0} where
  pub Returns-ok : (a : A) → P a → Returns (ok a) P
  Returns-ok a p = record { value = a; equals = refl; holds = p }

pub Returns-if :
    {A : Type 0} {P : A → Type 0} (t : Bool) {m n : Outcome A}
    → (t ≡ true → Returns m P)
    → (t ≡ false → Returns n P)
    → Returns (if t then m else n) P
Returns-if true f g = f refl
Returns-if false f g = g refl
