-- ===== src/ConfigManager/Changes/Complete.antt =====
-- _changes_summary on two configurations that are accepted.
mod Tests
use text.Mathlib.Text.{◌==◌ as str_eq}
use text.Mathlib.TextEquality.{eq_iff}
use pico_dualcore.Prelude.{
  Bool, true, false, not, ◌&&◌, ◌||◌, ◌⊎◌, inl, inr, String, Option, none, some, List, [], ◌∷◌,
  ◌++◌, ◌≡◌, refl, sym, ap, ◌∙◌, arith, All, if◌then◌else◌, Bool-cases,
}
use pico_dualcore.Value.{Value, Items, Fields, end, field, str_value, list_value}
use pico_dualcore.CommandProtocol.{member, unknown_field_names}
use pico_dualcore.CommandProtocol.Names.{unknown_field_names-member}
use pico_dualcore.Config.Check.{
  accepted, item, or_foreign, lookup, has_key, is_key, get, Passed, text_member, ◌>>=◌, ◌>>◌,
}
use pico_dualcore.Config.Check.Laws.{split, item_lem}
use pico_dualcore.Config.Devices.{validate_devices}
use pico_dualcore.Config.Unknown.{
  unknown_config_paths, unknown_keys, sorted_set, insert_text, list_unknown,
}
use pico_dualcore.Config.Settings.{
  required_keys, check_keys, check_lists, validate_delays, validate_config, refuse_unknown,
  all_present,
}
use pico_dualcore.Config.Settings.Limits.{validate_config-Passes}
use pico_dualcore.Config.Split.{present_of, all_present_lem, present_lem}
use pico_dualcore.ConfigManager.Same.{same}
use pico_dualcore.ConfigManager.Changes.{
  Change, setting_change, device_change, order_change, sorted_keys, setting_told, devices_told,
  one_key, every_key, changes_summary,
}
use pico_dualcore.ConfigManager.Changes.Sorted.{All-member, member-All, sorted_set-empty}
use pico_dualcore.ConfigManager.Changes.Accepted.{
  known_key, devices_lem, settings, setting_in_keys, in_sorted_keys,
}
use pico_dualcore.ConfigManager.Changes.Devices.{
  reported, reported-append, IsOfDevices, All-append, device_changes_lem,
}

-- Both have the key, with equal values.
abbrev pub Unchanged : Fields → Fields → String → Type 0
Unchanged p c key =
    (v w : Value) × (lookup key p ≡ some v) × (lookup key c ≡ some w) × (same v w ≡ true)

-- A setting has the two values, which differ.
abbrev pub Right : Fields → Fields → Change → Type 0
Right p c (setting_change key v w) =
    (lookup key p ≡ some v) × (lookup key c ≡ some w) × (same v w ≡ false)
Right p c ch = Unit

devices-Right : (p c : Fields) (chs : List Change) → All IsOfDevices chs → All (Right p c) chs
devices-Right p c [] a = tt
devices-Right p c (setting_change key v w ∷ chs) (a, rest) = absurd a
devices-Right p c (device_change kind id t ∷ chs) (a, rest) = (tt, devices-Right p c chs rest)
devices-Right p c (order_change ∷ chs) (a, rest) = (tt, devices-Right p c chs rest)

abbrev pub Told : Fields → Fields → List Change → String → Type 0
Told p c changes key = Unchanged p c key ⊎ (reported key changes ≡ true)

module _ (p c : Fields) where
  -- The version is not told.
  abbrev Settled : List Change → String → Type 0
  Settled changes key = (str_eq key "config_schema_version" ≡ true) ⊎ Told p c changes key

  setting_told_lem :
      (key : String)
      → has_key key p ≡ true
      → has_key key c ≡ true
      → (here : List Change) × (setting_told p c key ≡ accepted here)
        × All (Right p c) here
        × Told p c here key
  unfolding setting_told
  setting_told_lem key a b =
      let (v, e, l) = present_lem key p a in
      let (w, e', l') = present_lem key c b in
      let (here, made, right, told) = go v w l l' (same v w) refl in
      (here, rw (e, e') made, right, told)
    where
      listed : Value → Value → Bool → List Change
      listed v w b = if b then [] else setting_change key v w ∷ []

      go :
          (v w : Value)
          → lookup key p ≡ some v
          → lookup key c ≡ some w
          → (b : Bool) → same v w ≡ b
          → (here : List Change) × (accepted (listed v w (same v w)) ≡ accepted here)
            × All (Right p c) here
            × Told p c here key
      go v w l l' true e = ([], rw e refl, tt, inl (v, w, l, l', e))
      go v w l l' false e = (
        setting_change key v w ∷ [],
        rw e refl,
        ((l, l', e), tt),
        inr (ground (arith, eq_iff key key)),
      )

  devices_told_lem :
      check_lists p ≡ accepted tt
      → check_lists c ≡ accepted tt
      → (here : List Change) × (devices_told p c ≡ accepted here)
        × All (Right p c) here
        × Told p c here "devices"
  unfolding devices_told item
  devices_told_lem a b =
      let (v, l, (old, is_old, v_old, olds)) = devices_lem p a in
      let (w, l', (new, is_new, w_new, news)) = devices_lem c b in
      let (here, made, (right, told)) = device_changes_lem old new olds news in
      (
        here,
        rw (l, l', is_old, is_new) made,
        devices-Right p c here right,
        elim told [ inl e ↦ inl (v, w, l, l', rw (v_old, w_new) e) | inr r ↦ inr r ],
      )

  one_key_lem :
      check_lists p ≡ accepted tt
      → check_lists c ≡ accepted tt
      → (key : String) → has_key key p ≡ true
      → has_key key c ≡ true
      → (here : List Change) × (one_key p c key ≡ accepted here)
        × All (Right p c) here
        × Settled here key
  one_key_lem a b key h h' =
      go (str_eq key "config_schema_version") (str_eq key "devices") refl refl
    where
      go :
          (x y : Bool)
          → str_eq key "config_schema_version" ≡ x
          → str_eq key "devices" ≡ y
          → (here : List Change) × ((if x
                then accepted []
                else (if y then devices_told p c else setting_told p c key))
              ≡ accepted here)
            × All (Right p c) here
            × Settled here key
      go true y e f = ([], refl, tt, inl e)
      go false true e f =
          let (here, made, right, told) = devices_told_lem a b in
          let is : key ≡ "devices" = ground (arith, eq_iff key "devices") in
          (here, made, right, inr (rw is told))
      go false false e f =
          let (here, made, right, told) = setting_told_lem key h h' in (here, made, right, inr told)

  Settled-more :
      (key : String) (xs ys : List Change)
      → Settled xs key ⊎ Settled ys key
      → Settled (xs ++ ys) key
  Settled-more key xs ys (inl (inl e)) = inl e
  Settled-more key xs ys (inr (inl e)) = inl e
  Settled-more key xs ys (inl (inr (inl e))) = inr (inl e)
  Settled-more key xs ys (inr (inr (inl e))) = inr (inl e)
  Settled-more key xs ys (inl (inr (inr r))) = inr (inr (ground (arith, reported-append key xs ys)))
  Settled-more key xs ys (inr (inr (inr r))) = inr (inr (ground (arith, reported-append key xs ys)))

  every_key_lem :
      check_lists p ≡ accepted tt
      → check_lists c ≡ accepted tt
      → (keys : List String) → All (λ k. (has_key k p ≡ true) × (has_key k c ≡ true)) keys
      → (changes : List Change) × (every_key p c keys ≡ accepted changes)
        × All (Right p c) changes
        × All (Settled changes) keys
  unfolding every_key
  every_key_lem a b [] h = ([], refl, tt, tt)
  every_key_lem a b (key ∷ keys) ((h, h'), hs) =
      let (here, e, right, told) = one_key_lem a b key h h' in
      let (rest, e', rights, tolds) = every_key_lem a b keys hs in
      (
        here ++ rest,
        rw (e, e') refl,
        All-append (Right p c) here rest right rights,
        (
          Settled-more key here rest (inl told),
          All-map keys (λ k s. Settled-more k here rest (inr s)) tolds,
        ),
      )
    where
      All-map :
          {P Q : String → Type 0} (ks : List String)
          → ((k : String) → P k → Q k)
          → All P ks
          → All Q ks
      All-map [] f ps = tt
      All-map (k ∷ ks) f (q, ps) = (f k q, All-map ks f ps)

without_version :
    (p c : Fields) (changes : List Change) (ks : List String)
    → member "config_schema_version" ks ≡ false
    → All (Settled p c changes) ks
    → All (Told p c changes) ks
unfolding member
without_version p c changes [] h s = tt
without_version p c changes (k ∷ ks) h (inl e, s) = absurd (ground (arith, eq_iff k k))
without_version p c changes (k ∷ ks) h (inr t, s) =
    (t, without_version p c changes ks (ground arith) s)

-- Two configurations that are accepted have a summary of their changes: each setting other than the
-- devices that it reports is in both, with the values it gives, which differ; and every setting but
-- the version of the schema that is not equal in both is reported, the devices as "devices".
pub changes_summary-Told :
    (pv cv : Value) {p c : Fields}
    → validate_config pv ≡ accepted p
    → validate_config cv ≡ accepted c
    → (changes : List Change) × (changes_summary p c ≡ accepted changes)
      × All (Right p c) changes
      × All (Told p c changes) settings
unfolding changes_summary member
changes_summary-Told pv cv {p} {c} h h' =
    let a = validate_config-Passes pv h in
    let b = validate_config-Passes cv h' in
    let keys =
      All-member (λ k. (has_key k p ≡ true) × (has_key k c ≡ true)) (sorted_keys p)
        λ k m. (
          in_sorted_keys p k m,
          present_of k required_keys c (known_key p k a.keys (in_sorted_keys p k m))
              (all_present_lem c b.keys),
        ) in
    let (changes, made, right, told) = every_key_lem p c a.lists b.lists (sorted_keys p) keys in
    (
      changes,
      made,
      right,
      without_version p c changes settings refl (
          All-member (Settled p c changes) settings λ k m.
            member-All (Settled p c changes) k (sorted_keys p)
              (setting_in_keys p k (all_present_lem p a.keys) m) told),
    )
