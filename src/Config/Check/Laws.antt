-- ===== src/Config/Check/Laws.antt =====
-- Inversion of chains of checks that accept.
use text.Mathlib.TextEquality.{eq_iff}
use pico_dualcore.Prelude.{
  Bool, true, false, ◌≢◌, arith, List, [], ◌∷◌, All, String, Option, some, none, ◌≡◌, refl, ap,
}
use pico_dualcore.Value.{Value, Fields, none_value}
use pico_dualcore.Config.Check.{
  Check, accepted, refused, foreign, ◌>>=◌, Passed, require, item, lookup, or_foreign, required,
  or_missing, text_member, get, get_or, or_default,
}

module _ {ℓ κ} {A : Type ℓ} {B : Type κ} where
  -- A chain that accepts has accepted at its first step, and goes on from there.
  pub split :
      (m : Check A) (f : A → Check B) {b : B}
      → (m >>= f) ≡ accepted b
      → (a : A) × (m ≡ accepted a) × (f a ≡ accepted b)
  split (accepted a) f h = (a, refl, h)
  split (refused c u) f h = cc
  split foreign f h = cc

pub required_true : (b : Bool) {u : Passed} → require b ≡ accepted u → b ≡ true
required_true true h = refl
required_true false h = cc

pub item_lem :
    (k : String) (config : Fields) {v : Value}
    → item k config ≡ accepted v
    → lookup k config ≡ some v
unfolding item
item_lem k config {v} h = go (lookup k config) h
  where
    go : (o : Option Value) → or_foreign o ≡ accepted v → o ≡ some v
    go none h = cc
    go (some w) h = cc

pub required_lem :
    (k : String) (config : Fields) {v : Value}
    → required k config ≡ accepted v
    → lookup k config ≡ some v
unfolding required
required_lem k config {v} h = go (lookup k config) h
  where
    go : (o : Option Value) → or_missing o ≡ accepted v → o ≡ some v
    go none h = cc
    go (some w) h = cc

pub text_member_lem :
    (t s : String) (seen : List String)
    → text_member s (t ∷ seen) ≡ false
    → (t ≢ s) × (text_member s seen ≡ false)
unfolding text_member
text_member_lem t s seen h = ground (arith, eq_iff t s)

-- No text stands twice.
abbrev pub Distinct : List String → Type 0
Distinct [] = Unit
Distinct (t ∷ ts) = All (λ s. t ≢ s) ts × Distinct ts

-- What is not among the texts seen, the first of which is t.
pub unseen :
    (t : String) (seen ts : List String)
    → All (λ s. text_member s (t ∷ seen) ≡ false) ts
    → All (λ s. t ≢ s) ts × All (λ s. text_member s seen ≡ false) ts
unseen t seen [] h = (tt, tt)
unseen t seen (s ∷ ts) (a, h) =
    let (ne, out) = text_member_lem t s seen a in
    let (nes, outs) = unseen t seen ts h in ((ne, nes), (out, outs))

pub get_lem : (k : String) (fs : Fields) {v : Value} → lookup k fs ≡ some v → get k fs ≡ v
unfolding get get_or
get_lem k fs h = ap (or_default none_value) h
