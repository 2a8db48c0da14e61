-- ===== src/ConfigManager/Changes/Devices.antt =====
-- The changes of two lists of devices that are accepted.
use text.Mathlib.Text.{◌==◌ as str_eq}
use pico_dualcore.Prelude.{
  Bool, true, false, ◌||◌, ◌⊎◌, inl, inr, String, Option, none, some, is_some, List, [], ◌∷◌, ◌++◌,
  ◌≡◌, refl, arith, All, if◌then◌else◌,
}
use pico_dualcore.Value.{Items, nil, cons, Fields, list_value, dict_value}
use pico_dualcore.CommandProtocol.{member}
use pico_dualcore.Config.Check.{accepted, item}
use pico_dualcore.Config.Unknown.{sorted_set}
use pico_dualcore.ConfigManager.Same.{same}
use pico_dualcore.ConfigManager.Changes.{
  Change, setting_change, device_change, order_change, ChangeType, Devices, by_id, find, ids_of,
  tell, one_device, each_id, or_order, device_changes,
}
use pico_dualcore.ConfigManager.Changes.Accepted.{HasType, AllDevices}
use pico_dualcore.ConfigManager.Changes.Sorted.{All-sorted_set, All-member, member-append}

-- The setting that a change is about.
abbrev pub setting_of : Change → String
setting_of (setting_change key v w) = key
setting_of ch = "devices"

abbrev pub reported : String → List Change → Bool
reported key [] = false
reported key (ch ∷ chs) = str_eq (setting_of ch) key || reported key chs

pub reported-append :
    (key : String) (xs ys : List Change)
    → reported key (xs ++ ys) ≡ (reported key xs || reported key ys)
reported-append key [] ys = refl
reported-append key (x ∷ xs) ys = ground (arith, reported-append key xs ys)

abbrev Typed : String × Fields → Type 0
Typed (id, device) = HasType device

by_id_lem :
    (seen : Devices) (items : Items)
    → AllDevices items
    → All Typed seen
    → (ds : Devices) × (by_id seen items ≡ accepted ds) × All Typed ds
unfolding by_id item
by_id_lem seen nil a t = (seen, refl, t)
by_id_lem seen (cons (dict_value device) vs) ((s, e), ty, rest) t =
    let (ds, made, typed) = by_id_lem ((s, device) ∷ seen) vs rest (ty, t) in
    (ds, rw (e, made) refl, typed)
by_id_lem seen (cons v vs) a t = absurd a

find-Typed :
    (id : String) (ds : Devices) {device : Fields}
    → All Typed ds
    → find id ds ≡ some device
    → HasType device
unfolding find
find-Typed id [] t e = cc
find-Typed id ((j, d) ∷ ds) {device} t e = go (str_eq j id) (λ h. find-Typed id ds t.1 h) e
  where
    go :
        (b : Bool)
        → (find id ds ≡ some device → HasType device)
        → (if b then some d else find id ds) ≡ some device
        → HasType device
    go true later h = let same_one : d ≡ device = cc in rw (← same_one) t.0
    go false later h = later h

find-member : (id : String) (ds : Devices) → member id (ids_of ds) ≡ is_some (find id ds)
unfolding find member
find-member id [] = refl
find-member id ((j, d) ∷ ds) = go (str_eq j id) (find-member id ds)
  where
    go :
        (b : Bool)
        → member id (ids_of ds) ≡ is_some (find id ds)
        → (b || member id (ids_of ds)) ≡ is_some (if b then some d else find id ds)
    go true h = refl
    go false h = h

-- A change of the devices.
abbrev pub IsOfDevices : Change → Type 0
IsOfDevices (setting_change key v w) = ⊥
IsOfDevices ch = Unit

abbrev OfDevices : List Change → Type 0
OfDevices chs = All IsOfDevices chs × ((chs ≡ []) ⊎ (reported "devices" chs ≡ true))

tell_lem :
    (kind : ChangeType) (id : String) (device : Fields)
    → HasType device
    → (chs : List Change) × (tell kind id device ≡ accepted chs) × OfDevices chs
unfolding item
tell_lem kind id device (t, e) = (device_change kind id t ∷ [], rw e refl, ((tt, tt), inr refl))

one_device_lem :
    (id : String) (o o' : Option Fields)
    → ((device : Fields) → o ≡ some device → HasType device)
    → ((device : Fields) → o' ≡ some device → HasType device)
    → (is_some o || is_some o') ≡ true
    → (chs : List Change) × (one_device id o o' ≡ accepted chs) × OfDevices chs
one_device_lem id none none t t' h = cc
one_device_lem id none (some new) t t' h = tell_lem _ id new (t' new refl)
one_device_lem id (some old) none t t' h = tell_lem _ id old (t old refl)
one_device_lem id (some old) (some new) t t' h = go (same (dict_value old) (dict_value new))
  where
    go :
        (b : Bool)
        → (chs : List Change) × ((if b then accepted [] else tell ChangeType.modified id new)
            ≡ accepted chs)
          × OfDevices chs
    go true = ([], refl, (tt, inl refl))
    go false = tell_lem _ id new (t' new refl)

pub All-append {ℓ} :
    {A : Type 0} (P : A → Type ℓ) (xs ys : List A) → All P xs → All P ys → All P (xs ++ ys)
All-append P [] ys a b = b
All-append P (x ∷ xs) ys (p, a) b = (p, All-append P xs ys a b)

OfDevices-append : (xs ys : List Change) → OfDevices xs → OfDevices ys → OfDevices (xs ++ ys)
OfDevices-append [] ys a b = b
OfDevices-append (x ∷ xs) ys (a, inl e) b = cc
OfDevices-append (x ∷ xs) ys (a, inr r) b = (
  All-append IsOfDevices (x ∷ xs) ys a b.0,
  inr (ground (arith, reported-append "devices" (x ∷ xs) ys)),
)

each_id_lem :
    (olds news : Devices) (ids : List String)
    → All Typed olds
    → All Typed news
    → All (λ id. (is_some (find id olds) || is_some (find id news)) ≡ true) ids
    → (chs : List Change) × (each_id olds news ids ≡ accepted chs) × OfDevices chs
unfolding each_id
each_id_lem olds news [] t t' a = ([], refl, (tt, inl refl))
each_id_lem olds news (id ∷ ids) t t' (known, a) =
    let (here, e, told) =
      one_device_lem id (find id olds) (find id news) (λ d. find-Typed id olds t)
        (λ d. find-Typed id news t') known in
    let (rest, e', told') = each_id_lem olds news ids t t' a in
    (here ++ rest, rw (e, e') refl, OfDevices-append here rest told told')

-- The devices that are told, unless the lists are equal.
abbrev pub ToldDevices : Items → Items → List Change → Type 0
ToldDevices old new chs =
    All IsOfDevices chs
    × ((same (list_value old) (list_value new) ≡ true) ⊎ (reported "devices" chs ≡ true))

or_order_lem :
    (old new : Items) (chs : List Change)
    → OfDevices chs
    → ToldDevices old new (or_order old new chs)
or_order_lem old new [] d = go (same (list_value old) (list_value new)) refl
  where
    go :
        (b : Bool)
        → same (list_value old) (list_value new) ≡ b
        → ToldDevices old new (if b then [] else order_change ∷ [])
    go true e = (tt, inl e)
    go false e = ((tt, tt), inr refl)
or_order_lem old new (ch ∷ chs) (a, inl e) = cc
or_order_lem old new (ch ∷ chs) (a, inr r) = (a, inr r)

pub device_changes_lem :
    (old new : Items)
    → AllDevices old
    → AllDevices new
    → (chs : List Change) × (device_changes old new ≡ accepted chs) × ToldDevices old new chs
unfolding device_changes
device_changes_lem old new a b =
    let (olds, e, t) = by_id_lem [] old a tt in
    let (news, e', t') = by_id_lem [] new b tt in
    let all = ids_of olds ++ ids_of news in
    let known =
      All-sorted_set (λ id. (is_some (find id olds) || is_some (find id news)) ≡ true) all
        (All-member (λ id. (is_some (find id olds) || is_some (find id news)) ≡ true) all
          λ id m. ground (
            arith,
            m,
            member-append id (ids_of olds) (ids_of news),
            find-member id olds,
            find-member id news,
          )) in
    let (chs, e'', told) = each_id_lem olds news (sorted_set all) t t' known in
    (or_order old new chs, rw (e, e', e'') refl, or_order_lem old new chs told)
