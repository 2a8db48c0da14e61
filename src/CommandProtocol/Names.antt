-- ===== src/CommandProtocol/Names.antt =====
-- unknown_field_names of command_protocol.py: what the list of the unknown fields holds.
use Prim.Native.Nat.{Ordering}
use Prim.Native.String.{compare}
use text.Mathlib.Text.{◌==◌ as str_eq}
use text.Mathlib.TextEquality.{eq_iff}
use pico_dualcore.Prelude.{◌&&◌, ◌||◌, not, String, List, [], ◌∷◌, ◌≡◌, arith, refl}
use pico_dualcore.Value.{Fields, end, field, str_value}
use pico_dualcore.Config.Check.{lookup, has_key, is_key}
use pico_dualcore.CommandProtocol.{member, insert_sorted, unknown_field_names}

pub member-insert_sorted :
    (k s : String) (ts : List String) → member k (insert_sorted s ts) ≡ (str_eq s k || member k ts)
unfolding member insert_sorted
member-insert_sorted k s [] = refl
member-insert_sorted k s (t ∷ ts) = go (compare s t) (member-insert_sorted k s ts)
  where
    go :
        (o : Ordering)
        → member k (insert_sorted s ts) ≡ (str_eq s k || member k ts)
        → member k (elim o [
          | Ordering.lt ↦ s ∷ t ∷ ts
          | Ordering.eq ↦ s ∷ t ∷ ts
          | Ordering.gt ↦ t ∷ insert_sorted s ts
        ])
          ≡ (str_eq s k || member k (t ∷ ts))
    go Ordering.lt ih = refl
    go Ordering.eq ih = refl
    go Ordering.gt ih = ground arith

-- A name is among the unknown fields of an object exactly if it is a key of the object and not one
-- of the allowed names.
pub unknown_field_names-member :
    (allowed : List String) (fs : Fields) (k : String)
    → member k (unknown_field_names allowed fs) ≡ (has_key k fs && not (member k allowed))
unfolding member unknown_field_names has_key lookup is_key
unknown_field_names-member allowed end k = refl
unknown_field_names-member allowed (field (str_value s) v fs) k = ground (
  arith,
  eq_iff s k,
  eq_iff k s,
  member-insert_sorted k s (unknown_field_names allowed fs),
  unknown_field_names-member allowed fs k,
)
unknown_field_names-member allowed (field key v fs) k = unknown_field_names-member allowed fs k
