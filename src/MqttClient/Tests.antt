-- ===== src/MqttClient/Tests.antt =====
-- The length field and the packet ids at concrete numbers.
use pico_dualcore.Prelude.{ℕ, ◌≤◌, ◌<◌, some, List, [], ◌∷◌, ◌++◌, ◌≡◌, All, arith, length}
use pico_dualcore.MqttClient.{encode_length, recv_len, received, recv_len-encode_length}

recv_len-encode_length_example :
    (bytes : List ℕ) × (encode_length 16384 ≡ some bytes)
    × (recv_len (bytes ++ 7 ∷ []) ≡ received 16384 (7 ∷ []))
    × (length bytes ≤ 3)
    × All (λ b. b < 256) bytes
recv_len-encode_length_example = recv_len-encode_length 16384 (7 ∷ []) (omega arith)
