-- ===== src/MqttClient/Send.antt =====
-- connect, ping, publish, subscribe and check_msg of mqtt_client.py. A loop that waits for an answer
-- runs on the number of bytes that still arrive, of which each packet takes at least one.
use pico_dualcore.Prelude.{
  ℕ, zero, suc, ◌+◌, ◌/◌, ◌%◌, Bool, true, false, not, ◌||◌, Option, none, some, [], ◌∷◌, ◌++◌,
  if◌then◌else◌, leb, ltb, ◌==◌, length, is_some,
}
use pico_dualcore.MqttClient.{encode_length, length_bytes, publish_size}
use pico_dualcore.MqttClient.Socket.{
  Bytes, Io, mqtt_exception, os_error, out_of_fuel, pure, fail, finally, ◌>>=◌, ◌>>◌, service,
  settimeout, require, read_required, serviced_write, send_str, advance_packet_id, u16, first,
  from_u16,
}
use pico_dualcore.MqttClient.Receive.{Callback, wait_msg}

abbrev pub when : Bool → Io (Unit {0}) → Io (Unit {0})
when true m = m
when false m = pure tt

-- `finally: if timed: settimeout(None)` round a body before which the timeout was installed.
abbrev pub with_timeout : {A : Type 0} → Bool → Io A → Io A
with_timeout timed m = do when timed (settimeout true); finally m (when timed (settimeout false))

-- op == expected, for what wait_msg returned.
abbrev pub is_op : ℕ → Option ℕ → Bool
is_op expected none = false
is_op expected (some op) = op == expected

-- The wait of publish() for its PUBACK.
unfoldable pub await_puback : ℕ → Callback → ℕ → Io (Unit {0})
await_puback zero raises pid = fail out_of_fuel
await_puback (suc fuel) raises pid =
    let again = await_puback fuel raises pid in
    (do
      op ← wait_msg raises
      if is_op 64 op
          then (do
            sz ← read_required 1
            require (first sz == 2)
            rcv_pid ← read_required 2
            if from_u16 rcv_pid == pid then pure tt else again)
          else again)

-- All but the last byte: view[: len(msg) - 1].
abbrev pub but_last : Bytes → Bytes
but_last [] = []
but_last (b ∷ []) = []
but_last (b ∷ (c ∷ bs)) = b ∷ but_last (c ∷ bs)

-- The message, with the fragment spliced in: 44 is a comma, 125 a closing brace.
unfoldable pub write_message : Bytes → Option Bytes → Io (Unit {0})
write_message msg none = serviced_write msg
write_message msg (some fragment) = do
  serviced_write (but_last msg)
  serviced_write (44 ∷ [])
  serviced_write fragment
  serviced_write (125 ∷ [])

abbrev pub length_of : Option Bytes → Option ℕ
length_of none = none
length_of (some bs) = some (length bs)

abbrev pub packet_id_or_next : Option ℕ → Io ℕ
packet_id_or_next none = advance_packet_id
packet_id_or_next (some pid) = pure pid

-- The QoS 1 exchange; 0x32 is 50.
unfoldable pub exchange : Callback → Bytes → Bytes → Bytes → ℕ → Option Bytes → Io (Unit {0})
unfolding write_message
exchange raises header topic msg pid splice_fragment = do
  serviced_write (50 ∷ header)
  send_str topic
  serviced_write (u16 pid)
  write_message msg splice_fragment
  λ l. await_puback (suc (length l.inbound)) raises pid l

abbrev pub or_too_big : Option Bytes → Io Bytes
or_too_big none = fail mqtt_exception
or_too_big (some header) = pure header

unfoldable pub publish : Callback → Bytes → Bytes → Option ℕ → Bool → Option Bytes → Io (Unit {0})
publish raises topic msg packet_id timed splice_fragment = do
  header ←
      or_too_big
        (encode_length (publish_size (length topic) (length msg) (length_of splice_fragment)))
  pid ← packet_id_or_next packet_id
  with_timeout timed (exchange raises header topic msg pid splice_fragment)

-- The three bytes behind the length of a SUBACK: the packet id and the return code.
unfoldable pub check_suback : ℕ → Bytes → Io (Unit {0})
check_suback pid (a ∷ (b ∷ (code ∷ bs))) =
    if not (a == pid / 256) || not (b == pid % 256)
    then fail mqtt_exception
    else if code == 128
    then fail mqtt_exception
    else require (leb code 1)
check_suback pid bs = fail os_error

unfoldable pub await_suback : ℕ → Callback → ℕ → Io (Unit {0})
unfolding check_suback
await_suback zero raises pid = fail out_of_fuel
await_suback (suc fuel) raises pid =
    let again = await_suback fuel raises pid in
    (do
      op ← wait_msg raises
      if is_op 144 op
          then (do
            sz ← read_required 1
            require (first sz == 3)
            resp ← read_required 3
            check_suback pid resp)
          else again)

-- 0x82 is 130. The callback is set.
unfoldable pub subscribe : Callback → Bytes → Io (Unit {0})
subscribe raises topic = if ltb 122 (length topic) then fail mqtt_exception else (do
  pid ← advance_packet_id
  serviced_write (130 ∷ (length topic + 5) ∷ u16 pid)
  send_str topic
  serviced_write (1 ∷ [])
  λ l. await_suback (suc (length l.inbound)) raises pid l)

unfoldable pub await_pingresp : ℕ → Callback → Io (Unit {0})
await_pingresp zero raises = fail out_of_fuel
await_pingresp (suc fuel) raises =
    let again = await_pingresp fuel raises in
    (do op ← wait_msg raises; if is_some op then again else pure tt)

-- 0xC0 is 192.
unfoldable pub ping : Callback → Bool → Io (Unit {0})
ping raises timed =
    with_timeout timed
      (serviced_write (192 ∷ 0 ∷ []) >> λ l. await_pingresp (suc (length l.inbound)) raises l)

-- The length field of a CONNECT.
unfoldable pub connect_length : ℕ → Bytes
connect_length client_id = length_bytes 3 (12 + client_id)

abbrev flag : Bool → ℕ
flag true = 2
flag false = 0

unfoldable pub check_connack : Bytes → Io ℕ
check_connack (a ∷ (b ∷ (c ∷ (d ∷ bs)))) =
    if not (a == 32) || not (b == 2)
    then fail mqtt_exception
    else if not (d == 0)
    then fail mqtt_exception
    else pure (c % 2)
check_connack bs = fail os_error

-- connect on a new socket whose address is looked up and connected if `reachable`; the result is the
-- session-present flag.
unfoldable pub connect : Bool → Bytes → ℕ → Bool → Bool → Io ℕ
unfolding connect_length check_connack
connect reachable client_id keepalive clean_session timed = do
  settimeout timed
  service
  service
  if reachable then pure tt else fail os_error
  if ltb 65535 keepalive then fail mqtt_exception else pure tt
  serviced_write (16 ∷ (connect_length (length client_id) ++ 0 ∷ []))
  serviced_write (4 ∷ 77 ∷ 81 ∷ 84 ∷ 84 ∷ 4 ∷ flag clean_session ∷ u16 keepalive)
  send_str client_id
  resp ← read_required 4
  check_connack resp

-- `ready` is what the poll of the socket says.
unfoldable pub check_msg : Callback → Bool → Io (Option ℕ)
check_msg raises ready = if ready then with_timeout true (wait_msg raises) else pure none
