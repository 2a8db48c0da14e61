-- ===== src/ConfigManager/Changes/Sorted.antt =====
-- What holds of the texts of a list holds of those of the sorted list.
use Prim.Native.Nat.{Ordering}
use Prim.Native.String.{compare}
use text.Mathlib.TextEquality.{eq_iff}
use text.Mathlib.Text.{◌==◌ as str_eq}
use pico_dualcore.Prelude.{
  true, ◌||◌, String, List, [], ◌∷◌, ◌++◌, ◌≡◌, refl, subst, arith, All, Bool-cases, inl, inr,
}
use pico_dualcore.CommandProtocol.{member}
use pico_dualcore.Config.Unknown.{insert_text, sorted_set}

module _ {ℓ} (P : String → Type ℓ) where
  All-insert_text : (s : String) (ts : List String) → P s → All P ts → All P (insert_text s ts)
  unfolding insert_text
  All-insert_text s [] p ps = (p, tt)
  All-insert_text s (t ∷ ts) p ps = go (compare s t) (All-insert_text s ts p ps.1)
    where
      go :
          (o : Ordering)
          → All P (insert_text s ts)
          → All P (elim o [
            | Ordering.lt ↦ s ∷ t ∷ ts
            | Ordering.eq ↦ t ∷ ts
            | Ordering.gt ↦ t ∷ insert_text s ts
          ])
      go Ordering.lt ih = (p, ps)
      go Ordering.eq ih = ps
      go Ordering.gt ih = (ps.0, ih)

  pub All-sorted_set : (ss : List String) → All P ss → All P (sorted_set ss)
  unfolding sorted_set
  All-sorted_set [] ps = tt
  All-sorted_set (s ∷ ss) (p, ps) = All-insert_text s (sorted_set ss) p (All-sorted_set ss ps)

  pub All-member : (ss : List String) → ((s : String) → member s ss ≡ true → P s) → All P ss
  unfolding member
  All-member [] h = tt
  All-member (s ∷ ss) h =
      (h s (ground (arith, eq_iff s s)), All-member ss λ t m. h t (ground (arith, m)))

  pub member-All : (s : String) (ss : List String) → member s ss ≡ true → All P ss → P s
  unfolding member
  member-All s [] m ps = cc
  member-All s (t ∷ ts) m (p, ps) = elim (Bool-cases (str_eq t s)) [
    | inl here ↦ let e : t ≡ s = ground (arith, eq_iff t s) in subst P e p
    | inr other ↦ member-All s ts (ground arith) ps
  ]

pub member-append :
    (s : String) (xs ys : List String) → member s (xs ++ ys) ≡ (member s xs || member s ys)
unfolding member
member-append s [] ys = refl
member-append s (x ∷ xs) ys = ground (arith, member-append s xs ys)

insert_text-full : (s : String) (ts : List String) → insert_text s ts ≡ [] → ⊥
unfolding insert_text
insert_text-full s [] h = cc
insert_text-full s (t ∷ ts) h = go (compare s t) h
  where
    go :
        (o : Ordering)
        → (elim o [
          | Ordering.lt ↦ s ∷ t ∷ ts
          | Ordering.eq ↦ t ∷ ts
          | Ordering.gt ↦ t ∷ insert_text s ts
        ])
          ≡ []
        → ⊥
    go Ordering.lt h = cc
    go Ordering.eq h = cc
    go Ordering.gt h = cc

pub sorted_set-empty : (ss : List String) → sorted_set ss ≡ [] → ss ≡ []
unfolding sorted_set
sorted_set-empty [] h = refl
sorted_set-empty (s ∷ ss) h = absurd (insert_text-full s (sorted_set ss) h)
