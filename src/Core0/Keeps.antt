-- ===== src/Core0/Keeps.antt =====
-- Steps of Core 0 that keep a property of its state, however they end.
use pico_dualcore.Prelude.{Bool, true, false, if◌then◌else◌}
use pico_dualcore.Core0.State.{
  Core0, Result, ok, raise, Exn, Act, pure, throw, go_on, act, ◌>>=◌, ◌>>◌,
}

module _ {ℓ} (P : Core0 → Type ℓ) where
  pub record Keeps {A : Type 0} (m : Act A) : Type ℓ where
    pub at : (c : Core0) → P c → P (m c).1

  pub pure-Keeps : {A : Type 0} (a : A) → Keeps (pure a)
  pure-Keeps a = record { at = λ c p. p }

  pub throw-Keeps : {A : Type 0} (e : Exn) → Keeps (throw {A = A} e)
  throw-Keeps e = record { at = λ c p. p }

  pub act-Keeps : (f : Core0 → Core0) → ((c : Core0) → P c → P (f c)) → Keeps (act f)
  act-Keeps f k = record { at = k }

  pub go_on-keeps :
      {A B : Type 0} (f : A → Act B) (r : Result A × Core0)
      → ((a : A) → Keeps (f a))
      → P r.1
      → P (go_on f r).1
  go_on-keeps f (ok a, c) k p = (k a).at c p
  go_on-keeps f (raise e, c) k p = p

  pub bind-Keeps :
      {A B : Type 0} {m : Act A} {f : A → Act B}
      → Keeps m
      → ((a : A) → Keeps (f a))
      → Keeps (m >>= f)
  unfolding ◌>>=◌
  bind-Keeps {m = m} {f = f} k l = record { at = λ c p. go_on-keeps f (m c) l (k.at c p) }

  pub then-Keeps : {A B : Type 0} {m : Act A} {n : Act B} → Keeps m → Keeps n → Keeps (m >> n)
  unfolding ◌>>◌
  then-Keeps k l = bind-Keeps k (λ a. l)

  pub if-Keeps :
      {A : Type 0} (b : Bool) {m n : Act A} → Keeps m → Keeps n → Keeps (if b then m else n)
  if-Keeps true k l = k
  if-Keeps false k l = l

-- Steps from one property to another; `stay` is for the steps that change nothing.
module _ {ℓ κ} (P : Core0 → Type ℓ) (Q : Core0 → Type κ) where
  pub record Takes {A : Type 0} (m : Act A) : Type (ℓ ⊔ κ) where
    pub at : (c : Core0) → P c → Q (m c).1

  pub if-Takes :
      {A : Type 0} (b : Bool) {m n : Act A} → Takes m → Takes n → Takes (if b then m else n)
  if-Takes true k l = k
  if-Takes false k l = l
