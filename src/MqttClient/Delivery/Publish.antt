-- ===== src/MqttClient/Delivery/Publish.antt =====
-- wait_msg on the frame of a QoS 1 PUBLISH.
use pico_dualcore.Prelude.{
  ℕ, ◌+◌, ◌-◌, ◌≤◌, Bool, true, false, Option, none, some, ◌∷◌, ◌++◌, ◌≡◌, refl, sym, ◌∙◌, ap,
  subst, leb, length, arith,
}
use pico_dualcore.MqttClient.{encode_length, publish_size, recv_len, recv_len-encode_length}
use pico_dualcore.MqttClient.Socket.{
  Bytes, Io, Link, returned, ◌>>=◌, ◌>>◌, service, read, read_required, u16, from_u16, require,
  taken, left,
}
use pico_dualcore.MqttClient.Receive.{
  Callback, receive_length_from, receive_body, receive_publish, receive, first_byte, wait_msg,
  max_inbound_packet_bytes,
}
use pico_dualcore.MqttClient.Frames.{append_assoc}
use pico_dualcore.MqttClient.Delivery.{Acks, Gets-bytes, Gets-length, onward, acknowledge, body}

abbrev answer_of : ℕ → Bytes
answer_of pid = 64 ∷ 2 ∷ u16 pid

-- A test that holds does nothing.
passed : {A : Type 0} (b : Bool) (m : Io A) (l : Link) → b ≡ true → (require b >> m) l ≡ m l
unfolding require
passed true m l h = refl
passed false m l h = cc

body-Acks :
    (raises : Callback) (topic msg rest : Bytes) (pid r : ℕ) (l : Link)
    → raises topic msg ≡ false
    → r ≡ 2 + length msg
    → 4 ≤ l.capacity
    → l.inbound ≡ u16 pid ++ (msg ++ rest)
    → Acks l (receive_body raises 50 topic r l) 50 rest topic msg (answer_of pid)
unfolding receive_body
body-Acks raises topic msg rest pid r l quiet size c e =
    subst (λ o. Acks l o 50 rest topic msg (answer_of pid))
      (sym (passed (leb 2 r) _ l (ground arith)))
      (onward 50 rest topic msg (answer_of pid) l (read_required 2 l) _ (u16 pid) (msg ++ rest)
        (Gets-bytes 2 (u16 pid) (msg ++ rest) l refl e) c
        (λ k e' c'.
          onward 50 rest topic msg (answer_of pid) k (read_required (r - 2) k) _ msg rest
            (Gets-bytes (r - 2) msg rest k (omega arith) e') c'
            (λ j e'' c''.
              acknowledge raises 50 topic msg (answer_of pid) rest j quiet (omega arith) e'')))

from_u16-u16 : (n : ℕ) → from_u16 (u16 n) ≡ n
from_u16-u16 n = omega arith

-- Behind the length field.
abbrev behind_length : Callback → ℕ → Io (Option ℕ)
behind_length raises sz = do
  require (leb sz max_inbound_packet_bytes)
  require (leb 2 sz)
  topic_len ← read_required 2
  require (leb (from_u16 topic_len) (sz - 2))
  topic ← read_required (from_u16 topic_len)
  receive_body raises 50 topic (sz - 2 - from_u16 topic_len)

topic-Acks :
    (raises : Callback) (topic msg rest : Bytes) (pid sz n : ℕ) (l : Link)
    → raises topic msg ≡ false
    → sz ≡ 2 + length topic + length msg + 2
    → n ≡ length topic
    → 4 ≤ l.capacity
    → l.inbound ≡ topic ++ (u16 pid ++ (msg ++ rest))
    → Acks l
        ((require (leb n (sz - 2))
            >> (read_required n >>= λ topic. receive_body raises 50 topic (sz - 2 - n)))
          l)
        50
        rest
        topic
        msg
        (answer_of pid)
topic-Acks raises topic msg rest pid sz n l quiet size same c e =
    subst (λ o. Acks l o 50 rest topic msg (answer_of pid))
      (sym (passed (leb n (sz - 2)) _ l (ground arith)))
      (onward 50 rest topic msg (answer_of pid) l (read_required n l) _ topic
        (u16 pid ++ (msg ++ rest)) (Gets-bytes n topic (u16 pid ++ (msg ++ rest)) l (sym same) e) c
        (λ k e' c'. body-Acks raises topic msg rest pid (sz - 2 - n) k quiet (omega arith) c' e'))

length-Acks :
    (raises : Callback) (topic msg rest : Bytes) (pid sz : ℕ) (l : Link)
    → raises topic msg ≡ false
    → sz ≡ 2 + length topic + length msg + 2
    → sz ≤ 20480
    → 4 ≤ l.capacity
    → l.inbound ≡ body topic msg pid ++ rest
    → Acks l (behind_length raises sz l) 50 rest topic msg (answer_of pid)
length-Acks raises topic msg rest pid sz l quiet size small c e =
    let bytes = append_assoc topic (u16 pid ++ msg) rest in
    subst (λ o. Acks l o 50 rest topic msg (answer_of pid))
      (sym (
        passed (leb sz max_inbound_packet_bytes) _ l (ground arith)
        ∙ passed (leb 2 sz) _ l (ground arith)))
      (onward 50 rest topic msg (answer_of pid) l (read_required 2 l) _ (u16 (length topic))
        (topic ++ (u16 pid ++ (msg ++ rest)))
        (Gets-bytes 2 (u16 (length topic)) (topic ++ (u16 pid ++ (msg ++ rest))) l refl
          (e ∙ ap (λ bs. u16 (length topic) ++ bs) bytes))
        c
        (λ k e' c'.
          topic-Acks raises topic msg rest pid sz (from_u16 (u16 (length topic))) k quiet size
            (from_u16-u16 (length topic)) c' e'))

publish-Acks :
    (raises : Callback) (topic msg header rest : Bytes) (pid sz : ℕ) (l : Link)
    → raises topic msg ≡ false
    → sz ≡ 2 + length topic + length msg + 2
    → sz ≤ 20480
    → encode_length sz ≡ some header
    → 4 ≤ l.capacity
    → l.inbound ≡ header ++ (body topic msg pid ++ rest)
    → Acks l (receive_publish raises 50 l) 50 rest topic msg (answer_of pid)
unfolding receive_publish recv_len
publish-Acks raises topic msg header rest pid sz l quiet size small made c e =
    let (bytes, encoded, decoded, short, bs) =
      recv_len-encode_length sz (body topic msg pid ++ rest) (omega arith) in
    let same : bytes ≡ header = cc in
    onward 50 rest topic msg (answer_of pid) l (receive_length_from 4 0 0 l) _ sz
      (body topic msg pid ++ rest)
      (Gets-length 4 0 0 sz (header ++ (body topic msg pid ++ rest)) (body topic msg pid ++ rest) l
        e (ap (λ h. recv_len (h ++ (body topic msg pid ++ rest))) (sym same) ∙ decoded))
      c (λ k e₁ c₁. length-Acks raises topic msg rest pid sz k quiet size small c₁ e₁)

-- A QoS 1 PUBLISH whose frame is the one that publish() writes, and whose size is within the bound for
-- what arrives, is delivered by wait_msg with its topic and its message, and acknowledged with its
-- packet id, if the callback does not raise and the link takes the four bytes of the answer; the
-- stream stands at what follows the frame.
pub wait_msg-delivers :
    (raises : Callback) (topic msg header rest : Bytes) (pid : ℕ) (l : Link)
    → raises topic msg ≡ false
    → publish_size (length topic) (length msg) none ≤ 20480
    → encode_length (publish_size (length topic) (length msg) none) ≡ some header
    → 4 ≤ l.capacity
    → l.inbound ≡ (50 ∷ header) ++ (body topic msg pid ++ rest)
    → (k : Link) × (wait_msg raises l ≡ (returned (some 50), k))
      × (k.inbound ≡ rest)
      × (k.delivered ≡ (topic, msg) ∷ l.delivered)
      × (k.outbound ≡ l.outbound ++ (64 ∷ 2 ∷ u16 pid))
unfolding publish_size wait_msg first_byte receive service read require read_required
wait_msg-delivers raises topic msg header rest pid l quiet small made c e =
    let j : Link = (read 1 (service l).1).1 in
    let (k, r, d) =
      publish-Acks raises topic msg header rest pid (2 + length topic + length msg + 2) j quiet refl
        small made c (ap (left 1) e) in
    (k, ap (λ bs. first_byte raises bs j) (ap (taken 1) e) ∙ r, d.inbound, d.delivered, d.outbound)
