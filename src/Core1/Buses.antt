-- ===== src/Core1/Buses.antt =====
-- core1.py: the buses of Core 1, one object for each controller or pin. What machine.I2C and its kin make
-- is given as the number of the object.
mod Tests
use pico_dualcore.Prelude.{
  ℕ, suc, ◌+◌, ◌<◌, Bool, true, false, ◌&&◌, Option, none, some, List, [], ◌∷◌, ◌++◌, ◌≡◌, ◌≢◌,
  refl, ap, ◌∙◌, sym, arith, if◌then◌else◌, ◌==◌,
}

-- The pins, where they are given, and the clock.
pub record Wires : Type 0 where
  pub sda : Option ℕ
  pub scl : Option ℕ
  pub freq_hz : ℕ

pub record Cached : Type 0 where
  pub wires : Wires
  pub object : ℕ

-- The cache by the bus, and how many objects were made.
pub record Buses : Type 0 where
  pub cache : List (ℕ × Cached)
  pub made : ℕ

unfoldable pub cached : ℕ → List (ℕ × Cached) → Option Cached
cached bus [] = none
cached bus ((b, e) ∷ rest) = if b == bus then some e else cached bus rest

abbrev pub same_pin : Option ℕ → Option ℕ → Bool
same_pin none none = true
same_pin (some a) (some b) = a == b
same_pin a b = false

abbrev pub same_wires : Wires → Wires → Bool
same_wires a b = same_pin a.sda b.sda && (same_pin a.scl b.scl && a.freq_hz == b.freq_hz)

-- The object, or the ValueError over a conflict.
abbrev pub create_by : Option Cached → ℕ → Wires → Buses → Option ℕ × Buses
create_by (some e) bus wires s = (if same_wires e.wires wires then some e.object else none, s)
create_by none bus wires s = (
  some s.made,
  record s {
    cache = s.cache ++ (bus, record { wires = wires; object = s.made }) ∷ [];
    made = suc s.made;
  },
)

-- create() of _build_i2c_bus_factory.
unfoldable pub create_i2c : ℕ → Wires → Buses → Option ℕ × Buses
unfolding cached
create_i2c bus wires s = create_by (cached bus s.cache) bus wires s

abbrev pub requests : List (ℕ × Wires) → Buses → Buses
requests [] s = s
requests ((bus, wires) ∷ rs) s = requests rs (create_i2c bus wires s).1

-- create() of _build_onewire_bus_factory and of _build_adc_bus_factory, by the pin.
abbrev pub unwired : Wires
unwired = record { sda = none; scl = none; freq_hz = 0 }

unfoldable pub create_by_pin : ℕ → Buses → Option ℕ × Buses
unfolding create_i2c
create_by_pin pin s = create_i2c pin unwired s

cached-snoc :
    (bus b : ℕ) (e : Cached) (l : List (ℕ × Cached)) {f : Cached}
    → cached bus l ≡ some f
    → cached bus (l ++ (b, e) ∷ []) ≡ some f
unfolding cached
cached-snoc bus b e ((b', e') ∷ l) {f = f} h = go (b' == bus) h (cached-snoc bus b e l)
  where
    go :
        (t : Bool)
        → (if t then some e' else cached bus l) ≡ some f
        → (cached bus l ≡ some f → cached bus (l ++ (b, e) ∷ []) ≡ some f)
        → (if t then some e' else cached bus (l ++ (b, e) ∷ [])) ≡ some f
    go true h' ih = h'
    go false h' ih = ih h'
cached-snoc bus b e [] h = ground arith

cached-new :
    (bus : ℕ) (e : Cached) (l : List (ℕ × Cached))
    → cached bus l ≡ none
    → cached bus (l ++ (bus, e) ∷ []) ≡ some e
unfolding cached
cached-new bus e [] h = ground arith
cached-new bus e ((b', e') ∷ l) h = go (b' == bus) h (cached-new bus e l)
  where
    go :
        (t : Bool)
        → (if t then some e' else cached bus l) ≡ none
        → (cached bus l ≡ none → cached bus (l ++ (bus, e) ∷ []) ≡ some e)
        → (if t then some e' else cached bus (l ++ (bus, e) ∷ [])) ≡ some e
    go true h' ih = ground arith
    go false h' ih = ih h'

kept :
    (bus b : ℕ) (wires : Wires) (s : Buses) (f : Cached)
    → cached bus s.cache ≡ some f
    → cached bus (create_i2c b wires s).1.cache ≡ some f
unfolding create_i2c
kept bus b wires s f h = go (cached b s.cache)
  where
    go : (o : Option Cached) → cached bus (create_by o b wires s).1.cache ≡ some f
    go none = cached-snoc bus b _ s.cache h
    go (some e) = h

all_kept :
    (bus : ℕ) (rs : List (ℕ × Wires)) (s : Buses) (f : Cached)
    → cached bus s.cache ≡ some f
    → cached bus (requests rs s).cache ≡ some f
all_kept bus [] s f h = h
all_kept bus ((b, wires) ∷ rs) s f h =
    all_kept bus rs (create_i2c b wires s).1 f (kept bus b wires s f h)

-- The first request of a bus, which is not in the cache, makes its object. Whatever is requested after
-- it, a request of the bus with the same pins and clock gives that object, one with others is refused, and
-- neither changes anything.
pub create_i2c_once :
    (bus : ℕ) (wires other : Wires) (rs : List (ℕ × Wires)) (s : Buses)
    → cached bus s.cache ≡ none
    → let (first, s₁) = create_i2c bus wires s in
      let s₂ = requests rs s₁ in
      (first ≡ some s.made)
      × (create_i2c bus other s₂ ≡ (if same_wires wires other then some s.made else none, s₂))
unfolding create_i2c
create_i2c_once bus wires other rs s fresh =
    (ap (λ o. (create_by o bus wires s).0) fresh, ap (λ o. create_by o bus other s₂) kept_still)
  where
    s₁ : Buses
    s₁ = (create_i2c bus wires s).1

    s₂ : Buses
    s₂ = requests rs s₁

    made_first : cached bus s₁.cache ≡ some (record { wires = wires; object = s.made })
    made_first =
        ap (λ o. cached bus (create_by o bus wires s).1.cache) fresh
        ∙ cached-new bus _ s.cache fresh

    kept_still : cached bus s₂.cache ≡ some (record { wires = wires; object = s.made })
    kept_still = all_kept bus rs s₁ _ made_first
