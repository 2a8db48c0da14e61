-- ===== src/MqttClient.antt =====
-- mqtt_client.py: the remaining-length field of a packet, as publish() writes it and _recv_len()
-- reads it, and the packet ids. A byte is a number under 256, & 0x7F is % 128, >> 7 is / 128, and
-- | of numbers that share no bit is +.
pub mod Socket
pub mod Receive
pub mod Send
pub mod Tame
pub mod Bounded
pub mod Operations
pub mod Frames
pub mod Delivery
mod Tests
use Prim.Native.Nat.pow
use pico_dualcore.Prelude.{
  ℕ, zero, suc, ◌+◌, ◌*◌, ◌/◌, ◌%◌, ◌^◌, ◌≤◌, ◌<◌, ◌≡◌, ◌≢◌, Bool, true, false, Option, none, some,
  List, [], ◌∷◌, ◌++◌, All, ◌∙◌, ap, refl, arith, if◌then◌else◌, ltb, leb, length, Bool-cases, inl,
  inr,
}

-- What _recv_len() comes to: a length with the bytes left in the stream, the MQTTException over a
-- fifth byte, or the OSError over a stream that ends.
pub data Received : Type 0 where
  received : ℕ → List ℕ → Received
  exceeds_four_bytes end_of_stream : Received

-- `k` more bytes may be read; `n` is the length so far, whose `sh` low bits are in place.
recv_len_from : ℕ → ℕ → ℕ → List ℕ → Received
recv_len_from zero n sh bytes = exceeds_four_bytes
recv_len_from (suc k) n sh [] = end_of_stream
recv_len_from (suc k) n sh (b ∷ bytes) =
    let n' = n + b % 128 * 2 ^ sh in
    let rest = recv_len_from k n' (sh + 7) bytes in if ltb b 128 then received n' bytes else rest

-- Four rounds, after which sh is 28.
pub recv_len : List ℕ → Received
unfolding recv_len_from
recv_len = recv_len_from 4 0 0

-- `while sz > 0x7F`; three rounds are enough for what publish() lets through.
pub length_bytes : ℕ → ℕ → List ℕ
length_bytes zero sz = sz ∷ []
length_bytes (suc k) sz =
    let rest = length_bytes k (sz / 128) in if ltb 127 sz then (sz % 128 + 128) ∷ rest else sz ∷ []

-- The length field of a PUBLISH; `none` is the MQTTException over the size.
unfoldable pub encode_length : ℕ → Option (List ℕ)
unfolding length_bytes
encode_length sz = if ltb 2097151 sz then none else some (length_bytes 3 sz)

-- The size of the frame's body, with the splice.
unfoldable pub publish_size : ℕ → ℕ → Option ℕ → ℕ
publish_size topic msg none = 2 + topic + msg + 2
publish_size topic msg (some fragment) = 2 + topic + msg + 2 + (fragment + 1)

unfoldable pub next_packet_id : ℕ → ℕ
next_packet_id pid = if ltb 65535 (pid + 1) then 1 else pid + 1

abbrev limit : ℕ → ℕ
limit zero = 128
limit (suc k) = 128 * limit k

place : (sz p n : ℕ) → n + (sz % 128 + 128) % 128 * p + sz / 128 * (p * 128) ≡ n + sz * p
place sz p n =
    let e : 128 * (sz / 128) + sz % 128 ≡ sz = omega arith in
    let m : (sz % 128 + 128) % 128 ≡ sz % 128 = omega arith in
    rw m (
      let g : n + sz % 128 * p + sz / 128 * (p * 128) ≡ n + (128 * (sz / 128) + sz % 128) * p =
        omega arith in
      g ∙ ap (λ z. n + z * p) e)

double : (a b : ℕ) → b ≡ suc a → 2 ^ b ≡ 2 ^ a * 2
double a b h = rw h (pow.suc 2 a)

shifted : (sh : ℕ) → 2 ^ (sh + 7) ≡ 2 ^ sh * 128
shifted sh =
    let d = λ (k : ℕ). double (sh + k) (sh + suc k) (omega arith) in
    let z : 2 ^ (sh + 0) ≡ 2 ^ sh = ap (λ k. 2 ^ k) (omega arith) in
    omega (arith, z, d 0, d 1, d 2, d 3, d 4, d 5, d 6)

more_bytes :
    (k sz : ℕ)
    → ltb 127 sz ≡ true
    → length_bytes (suc k) sz ≡ (sz % 128 + 128) ∷ length_bytes k (sz / 128)
unfolding length_bytes
more_bytes k sz h = ground arith

last_byte :
    (k n sh sz : ℕ) (rest : List ℕ)
    → ltb 127 sz ≡ false
    → recv_len_from (suc k) n sh (length_bytes k sz ++ rest) ≡ received (n + sz * 2 ^ sh) rest
unfolding recv_len_from length_bytes
last_byte zero n sh sz rest h = ground arith
last_byte (suc k) n sh sz rest h = ground arith

continued :
    (k n sh b : ℕ) (bytes : List ℕ)
    → ltb b 128 ≡ false
    → recv_len_from (suc k) n sh (b ∷ bytes) ≡ recv_len_from k (n + b % 128 * 2 ^ sh) (sh + 7) bytes
unfolding recv_len_from
continued k n sh b bytes h = ground arith

recv_len_from-length_bytes :
    (k n sh sz : ℕ) (rest : List ℕ)
    → sz < limit k
    → recv_len_from (suc k) n sh (length_bytes k sz ++ rest) ≡ received (n + sz * 2 ^ sh) rest
unfolding recv_len_from length_bytes
recv_len_from-length_bytes zero n sh sz rest h = ground arith
recv_len_from-length_bytes (suc k) n sh sz rest h =
    let ih =
      recv_len_from-length_bytes k (n + (sz % 128 + 128) % 128 * 2 ^ sh) (sh + 7) (sz / 128) rest
        (omega arith) in
    let a = place sz (2 ^ sh) n in
    let b = shifted sh in
    elim (Bool-cases (ltb 127 sz)) [
      | inl more ↦
          let e = more_bytes k sz more in
          let c =
            continued (suc k) n sh (sz % 128 + 128) (length_bytes k (sz / 128) ++ rest)
              (ground arith) in
          ap (λ bytes. recv_len_from (suc (suc k)) n sh (bytes ++ rest)) e
          ∙ c
          ∙ ih
          ∙ ap (λ m. received m rest) (rw b a)
      | inr done ↦ last_byte (suc k) n sh sz rest done
    ]

length_bytes-All : (k sz : ℕ) → sz < limit k → All (λ b. b < 256) (length_bytes k sz)
unfolding length_bytes
length_bytes-All zero sz h = (omega arith, tt)
length_bytes-All (suc k) sz h = elim (Bool-cases (ltb 127 sz)) [
  | inl more ↦ rw more (omega arith, length_bytes-All k (sz / 128) (omega arith))
  | inr done ↦ rw done (ground arith, tt)
]

length-length_bytes : (sz : ℕ) → sz ≤ 2097151 → length (length_bytes 3 sz) ≤ 3
unfolding length_bytes
length-length_bytes sz h = ground arith

-- A length that publish() lets through takes at most three bytes, each under 256, and is read back
-- from them, with the stream at the byte that follows.
pub recv_len-encode_length :
    (sz : ℕ) (rest : List ℕ)
    → sz ≤ 2097151
    → (bytes : List ℕ) × (encode_length sz ≡ some bytes)
      × (recv_len (bytes ++ rest) ≡ received sz rest)
      × (length bytes ≤ 3)
      × All (λ b. b < 256) bytes
unfolding encode_length recv_len
recv_len-encode_length sz rest h = (
  length_bytes 3 sz,
  ground arith,
  recv_len_from-length_bytes 3 0 0 sz rest (omega arith) ∙ ap (λ n. received n rest) (omega arith),
  length-length_bytes sz h,
  length_bytes-All 3 sz (omega arith),
)

-- The id that the k-th call returns on a fresh connection.
abbrev pub nth_id : ℕ → ℕ
nth_id zero = 0
nth_id (suc k) = next_packet_id (nth_id k)

-- The calls of a fresh connection return 1, 2, ... 65535 and begin again: the reserved 0 never.
pub next_packet_id_lem : (k : ℕ) → nth_id (suc k) ≡ k % 65535 + 1
unfolding next_packet_id
next_packet_id_lem zero = refl
next_packet_id_lem (suc k) = let ih = next_packet_id_lem k in ground arith
