-- ===== src/MqttClient/Receive.antt =====
-- wait_msg of mqtt_client.py: one packet from the broker.
use pico_dualcore.Prelude.{
  ℕ, zero, suc, ◌+◌, ◌*◌, ◌-◌, ◌/◌, ◌%◌, ◌^◌, Bool, not, ◌||◌, Option, none, some, [], ◌∷◌,
  if◌then◌else◌, leb, ltb, ◌==◌,
}
use pico_dualcore.MqttClient.Socket.{
  Bytes, Io, returned, raised, os_error, callback_error, pure, fail, ◌>>=◌, ◌>>◌, service, read,
  require, abort_corrupt_inbound, read_required, serviced_write, first, from_u16,
}

abbrev pub max_inbound_packet_bytes : ℕ
max_inbound_packet_bytes = 20480

-- self.cb, which raises on the messages that the first argument says.
abbrev pub Callback : Type 0
Callback = Bytes → Bytes → Bool

unfoldable pub deliver : Callback → Bytes → Bytes → Io (Unit {0})
deliver raises topic msg l =
    if raises topic msg
    then (raised callback_error, l)
    else (returned tt, record l { delivered = (topic, msg) ∷ l.delivered })

-- _recv_len, in the rounds of recv_len_from.
unfoldable pub receive_length_from : ℕ → ℕ → ℕ → Io ℕ
receive_length_from zero n sh = abort_corrupt_inbound
receive_length_from (suc k) n sh = do
  chunk ← read_required 1
  let n' = n + first chunk % 128 * 2 ^ sh
  let rest = receive_length_from k n' (sh + 7)
  if ltb (first chunk) 128 then pure n' else rest

-- op & 6, halved.
abbrev pub qos : ℕ → ℕ
qos op = op / 2 % 4

-- The rest of a PUBLISH behind its topic.
unfoldable pub receive_body : Callback → ℕ → Bytes → ℕ → Io (Option ℕ)
unfolding deliver
receive_body raises op topic remaining =
    if qos op == 0
    then (do msg ← read_required remaining; deliver raises topic msg; pure (some op))
    else (do
      require (leb 2 remaining)
      pid ← read_required 2
      msg ← read_required (remaining - 2)
      deliver raises topic msg
      serviced_write (64 ∷ 2 ∷ pid)
      pure (some op))

unfoldable pub receive_publish : Callback → ℕ → Io (Option ℕ)
unfolding receive_length_from receive_body
receive_publish raises op = do
  sz ← receive_length_from 4 0 0
  require (leb sz max_inbound_packet_bytes)
  require (leb 2 sz)
  topic_len ← read_required 2
  require (leb (from_u16 topic_len) (sz - 2))
  topic ← read_required (from_u16 topic_len)
  receive_body raises op topic (sz - 2 - from_u16 topic_len)

-- The packet whose first byte is `op`; `none` is the None for a PINGRESP (0xD0). PUBACK (0x40) and
-- SUBACK (0x90) are left to the caller.
unfoldable pub receive : Callback → ℕ → Io (Option ℕ)
unfolding receive_publish
receive raises op =
    if op == 208
    then (do sz ← read_required 1; require (first sz == 0); pure none)
    else if op / 16 == 3
    then (do require (not (qos op == 2)); require (not (qos op == 3)); receive_publish raises op)
    else if op == 64 || op == 144
    then pure (some op)
    else abort_corrupt_inbound

unfoldable pub first_byte : Callback → Bytes → Io (Option ℕ)
unfolding receive
first_byte raises [] = fail os_error
first_byte raises (op ∷ bs) = receive raises op

unfoldable pub wait_msg : Callback → Io (Option ℕ)
unfolding first_byte
wait_msg raises = do service; res ← read 1; first_byte raises res
