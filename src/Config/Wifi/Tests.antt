-- ===== src/Config/Wifi/Tests.antt =====
-- Credentials of an open network.
use pico_dualcore.Prelude.{◌≡◌, refl}
use pico_dualcore.Value.{Fields, end, field, str_value}
use pico_dualcore.Config.Check.{accepted, get, get_or, lookup, only_allowed, text_member}
use pico_dualcore.Config.Wifi.{WifiConfig, load_wifi_config}

abbrev open_network : Fields
open_network =
    field (str_value "wifi_ssid") (str_value "guests")
      (field (str_value "wifi_password") (str_value "") end)

abbrev credentials : WifiConfig
credentials = record { wifi_ssid = str_value "guests"; wifi_password = str_value "" }

network_accepted : load_wifi_config open_network ≡ accepted credentials
unfolding load_wifi_config get get_or lookup only_allowed text_member
network_accepted = refl
