-- ===== src/Config/Wifi.antt =====
-- load_wifi_config of config.py, after _read_json, and split_config.
mod Tests
use Prim.Native.Char.{code}
use Prim.Native.String.{String, len}
use pico_dualcore.Prelude.{
  ℕ, Bool, true, false, not, ◌||◌, Option, none, some, List, [], ◌∷◌, leb, ◌==◌, ◌≤◌, ◌≡◌, ◌≢◌,
  refl, ap, subst, arith,
}
use pico_dualcore.Value.{Value, Fields, str_value, none_value}
use pico_dualcore.Config.Check.{
  Check, accepted, ◌>>=◌, ◌>>◌, Passed, require, get, only_allowed, is_empty,
}
use pico_dualcore.Config.Check.Laws.{split, required_true}
use pico_dualcore.Config.Definition.{non_empty_string, bytes_within}

abbrev is_text : Value → Bool
is_text (str_value s) = true
is_text v = false

-- "\x00" in s
has_nul : String → Bool
has_nul String.[] = false
has_nul (String.◌∷◌ c s) = code c == 0 || has_nul s

no_nul : Value → Bool
unfolding has_nul
no_nul (str_value s) = not (has_nul s)
no_nul v = false

pub record WifiConfig : Type 0 where
  pub wifi_ssid : Value
  pub wifi_password : Value

-- Here `refused` is a WifiConfigError, which has no code.
pub load_wifi_config : Fields → Check WifiConfig
unfolding no_nul
load_wifi_config config = do
  require (only_allowed ("wifi_ssid" ∷ "wifi_password" ∷ []) config)
  let ssid = get "wifi_ssid" config
  let password = get "wifi_password" config
  require (non_empty_string ssid)
  require (is_text password)
  require (no_nul ssid)
  require (no_nul password)
  require (bytes_within 32 ssid)
  require (bytes_within 64 password)
  accepted (record { wifi_ssid = ssid; wifi_password = password })

-- No character is NUL.
abbrev NulFree : String → Type 0
NulFree String.[] = Unit
NulFree (String.◌∷◌ c s) = (code c ≢ 0) × NulFree s

nul_free : (s : String) → has_nul s ≡ false → NulFree s
unfolding has_nul
nul_free String.[] h = tt
nul_free (String.◌∷◌ c s) h = (ground arith, nul_free s (ground arith))

-- A text without NUL, of at most so many bytes.
abbrev Secret : ℕ → Value → Type 0
Secret bound v = (s : String) × (v ≡ str_value s) × NulFree s × (len s ≤ bound)

secret_lem :
    (bound : ℕ) (v : Value) → no_nul v ≡ true → bytes_within bound v ≡ true → Secret bound v
unfolding no_nul
secret_lem bound (str_value s) n b = (s, refl, nul_free s (ground arith), ground arith)
secret_lem bound v n b = cc

not_empty_lem : (v : Value) → non_empty_string v ≡ true → v ≢ str_value ""
not_empty_lem v h e = let f = ap non_empty_string e in cc

-- The credentials that are accepted: an SSID of at most 32 bytes that is not empty and a password of at most 64, which may
-- be empty, both without NUL, are returned as they stand in the file.
pub load_wifi_config_lem :
    (config : Fields) {wifi : WifiConfig}
    → load_wifi_config config ≡ accepted wifi
    → Secret 32 wifi.wifi_ssid
      × (wifi.wifi_ssid ≢ str_value "")
      × Secret 64 wifi.wifi_password
      × (wifi.wifi_ssid ≡ get "wifi_ssid" config)
      × (wifi.wifi_password ≡ get "wifi_password" config)
unfolding load_wifi_config
load_wifi_config_lem config {wifi} h =
    let ssid = get "wifi_ssid" config in
    let password = get "wifi_password" config in
    let (u₁, e₁, h₁) =
      split (require (only_allowed ("wifi_ssid" ∷ "wifi_password" ∷ []) config)) _ h in
    let (u₂, e₂, h₂) = split (require (non_empty_string ssid)) _ h₁ in
    let (u₃, e₃, h₃) = split (require (is_text password)) _ h₂ in
    let (u₄, e₄, h₄) = split (require (no_nul ssid)) _ h₃ in
    let (u₅, e₅, h₅) = split (require (no_nul password)) _ h₄ in
    let (u₆, e₆, h₆) = split (require (bytes_within 32 ssid)) _ h₅ in
    let (u₇, e₇, h₇) = split (require (bytes_within 64 password)) _ h₆ in
    let same : record { wifi_ssid = ssid; wifi_password = password } ≡ wifi = cc in
    subst
      (λ w.
        Secret 32 w.wifi_ssid
        × (w.wifi_ssid ≢ str_value "")
        × Secret 64 w.wifi_password
        × (w.wifi_ssid ≡ ssid)
        × (w.wifi_password ≡ password))
      same
      (
        secret_lem 32 ssid (required_true _ e₄) (required_true _ e₆),
        not_empty_lem ssid (required_true _ e₂),
        secret_lem 64 password (required_true _ e₅) (required_true _ e₇),
        refl,
        refl,
      )
