-- ===== src/Core1/Buses/Tests.antt =====
-- The bus 0 on the pins 4 and 5, beside the bus 1.
use pico_dualcore.Prelude.{some, none, [], ◌∷◌, ◌≡◌, refl}
use pico_dualcore.Core1.Buses.{Wires, Buses, cached, create_i2c, requests, create_i2c_once}

abbrev wires : Wires
wires = record { sda = some 4; scl = some 5; freq_hz = 400000 }

abbrev faster : Wires
faster = record wires { freq_hz = 1000000 }

abbrev none_made : Buses
none_made = record { cache = []; made = 0 }

abbrev others : Buses
others = requests ((1, wires) ∷ (0, wires) ∷ []) (create_i2c 0 wires none_made).1

create_i2c_once_example :
    ((create_i2c 0 wires none_made).0 ≡ some 0) × (create_i2c 0 faster others ≡ (none, others))
unfolding cached
create_i2c_once_example =
    create_i2c_once 0 wires faster ((1, wires) ∷ (0, wires) ∷ []) none_made refl
