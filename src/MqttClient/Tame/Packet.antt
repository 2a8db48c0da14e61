-- ===== src/MqttClient/Tame/Packet.antt =====
-- wait_msg and its parts are tame, and a packet that was processed took a byte.
use pico_dualcore.Prelude.{
  ℕ, zero, suc, ◌+◌, ◌-◌, ◌*◌, ◌/◌, ◌%◌, ◌^◌, ◌≤◌, ◌<◌, Bool, true, false, not, ◌||◌, Option, none,
  some, [], ◌∷◌, ◌≡◌, refl, ap, if◌then◌else◌, leb, ◌==◌, length, arith,
}
use pico_dualcore.MqttClient.Socket.{
  Bytes, Io, Link, Outcome, returned, raised, os_error, callback_error, go_on, ◌>>=◌, ◌>>◌, service,
  read, taken, left, require, abort_corrupt_inbound, read_required, serviced_write, first, from_u16,
}
use pico_dualcore.MqttClient.Receive.{
  Callback, deliver, receive_length_from, receive_body, receive_publish, receive, first_byte,
  wait_msg, qos, max_inbound_packet_bytes,
}
use pico_dualcore.MqttClient.Tame.{
  Reaches-refl, Reaches-trans, Run, Tame, bind, choice, pure-Tame, fail-Tame, abort-Tame,
  require-Tame, fed_read, read_required-Tame, serviced_write-Tame,
}

deliver-Tame : (raises : Callback) (topic msg : Bytes) → Tame (deliver raises topic msg)
unfolding deliver
deliver-Tame raises topic msg l = go (raises topic msg)
  where
    go :
        (b : Bool)
        → Run l (
            if b
            then (raised callback_error, l)
            else (returned tt, record l { delivered = (topic, msg) ∷ l.delivered }))
    go true = (Reaches-refl l, tt)
    go false = (
      record {
        shrinks = omega arith;
        timed = refl;
        mode_changes = refl;
        unfed = refl;
        largest = omega arith;
      },
      tt,
    )

receive_length_from-Tame : (k n sh : ℕ) → Tame (receive_length_from k n sh)
unfolding receive_length_from
receive_length_from-Tame zero n sh = abort-Tame ℕ
receive_length_from-Tame (suc k) n sh =
    bind (read_required 1) _ (read_required-Tame 1 (omega arith)) (λ chunk.
      choice _ _ _ (pure-Tame (n + first chunk % 128 * 2 ^ sh))
        (receive_length_from-Tame k _ (sh + 7)))

receive_body-Tame :
    (raises : Callback) (op : ℕ) (topic : Bytes) (remaining : ℕ)
    → remaining ≤ 20480
    → Tame (receive_body raises op topic remaining)
unfolding receive_body
receive_body-Tame raises op topic remaining h =
    choice (qos op == 0) _ _
      (bind (read_required remaining) _ (read_required-Tame remaining h) (λ msg.
        bind (deliver raises topic msg) _ (deliver-Tame raises topic msg)
          (λ u. pure-Tame (some op))))
      (bind (require (leb 2 remaining)) _ (require-Tame _) (λ u.
        bind (read_required 2) _ (read_required-Tame 2 (omega arith)) (λ pid.
          bind (read_required (remaining - 2)) _ (read_required-Tame (remaining - 2) (omega arith))
            (λ msg. bind (deliver raises topic msg) _ (deliver-Tame raises topic msg) (λ u.
              bind (serviced_write (64 ∷ 2 ∷ pid)) _ (serviced_write-Tame _)
                (λ u. pure-Tame (some op)))))))

-- What follows a test that drops the connection may rely on it.
guarded : {A : Type 0} (b : Bool) (m : Io A) → (b ≡ true → Tame m) → Tame (require b >> m)
unfolding require abort_corrupt_inbound
guarded true m h = h refl
guarded {A} false m h = abort-Tame A

receive_publish-Tame : (raises : Callback) (op : ℕ) → Tame (receive_publish raises op)
unfolding receive_publish
receive_publish-Tame raises op =
    bind (receive_length_from 4 0 0) _ (receive_length_from-Tame 4 0 0) (λ sz.
      guarded (leb sz max_inbound_packet_bytes) _ (λ small. guarded (leb 2 sz) _ (λ two.
        bind (read_required 2) _ (read_required-Tame 2 (omega arith)) (λ topic_len.
          guarded (leb (from_u16 topic_len) (sz - 2)) _ (λ fits.
            bind (read_required (from_u16 topic_len)) _
              (read_required-Tame (from_u16 topic_len) (ground arith))
              (λ topic. receive_body-Tame raises op topic _ (ground arith)))))))

receive-Tame : (raises : Callback) (op : ℕ) → Tame (receive raises op)
unfolding receive
receive-Tame raises op =
    choice (op == 208) _ _
      (bind (read_required 1) _ (read_required-Tame 1 (omega arith)) (λ sz.
        bind (require (first sz == 0)) _ (require-Tame _) (λ u. pure-Tame {A = Option ℕ} none)))
      (choice (op / 16 == 3) _ _
        (bind (require (not (qos op == 2))) _ (require-Tame _) (λ u.
          bind (require (not (qos op == 3))) _ (require-Tame _)
            (λ u. receive_publish-Tame raises op)))
        (choice (op == 64 || op == 144) _ _ (pure-Tame (some op)) (abort-Tame (Option ℕ))))

first_byte-Tame : (raises : Callback) (res : Bytes) → Tame (first_byte raises res)
unfolding first_byte
first_byte-Tame raises [] = fail-Tame (Option ℕ) os_error tt
first_byte-Tame raises (op ∷ bs) = receive-Tame raises op

pub wait_msg-Tame : (raises : Callback) → Tame (wait_msg raises)
unfolding wait_msg
wait_msg-Tame raises = fed_read 1 (first_byte raises) (omega arith) (first_byte-Tame raises)

-- Fewer bytes than n are left, if the action returned.
abbrev pub Took : {A : Type 0} → ℕ → Outcome A × Link → Type 0
Took n (returned a, k) = length k.inbound < n
Took n (raised e, k) = Unit

Took-less :
    {A : Type 0} (n : ℕ) (j : Link) (r : Outcome A × Link)
    → Run j r
    → length j.inbound < n
    → Took n r
Took-less n j (returned a, k) (h, e) g = let s = h.shrinks in omega arith
Took-less n j (raised e, k) h g = tt

first_byte-Took :
    (raises : Callback) (bs : Bytes) (j : Link)
    → j.inbound ≡ left 1 bs
    → Took (length bs) (first_byte raises (taken 1 bs) j)
unfolding first_byte
first_byte-Took raises [] j h = tt
first_byte-Took raises (op ∷ bs) j h =
    Took-less (suc (length bs)) j (receive raises op j) (receive-Tame raises op j)
      (let s = ap length h in omega arith)

-- A packet that was processed took a byte at least.
pub wait_msg-Took : (raises : Callback) (l : Link) → Took (length l.inbound) (wait_msg raises l)
unfolding wait_msg service read
wait_msg-Took raises l = first_byte-Took raises l.inbound (read 1 (service l).1).1 refl

-- What an action does on links with fewer than n bytes to come.
abbrev pub Below : {A : Type 0} → ℕ → Io A → Type 0
Below n m = (l : Link) → length l.inbound < n → Run l (m l)

module _ {A B : Type 0} where
  Run-Below :
      (n : ℕ) (l : Link) (r : Outcome A × Link) (f : A → Io B)
      → Run l r
      → Took n r
      → ((a : A) → Below n (f a))
      → Run l (go_on f r)
  Run-Below n l (returned a, k) f (h, e) t b = let (g, s) = b a k t in (Reaches-trans l k _ h g, s)
  Run-Below n l (raised x, k) f (h, e) t b = (h, e)

  pub bind-Below :
      (n : ℕ) (m : Io A) (f : A → Io B) → Tame m → ((a : A) → Below n (f a)) → Below n (m >>= f)
  bind-Below n m f t b l h = Run-Below n l (m l) f (t l) (Took-less n l (m l) (t l) h) b

module _ {A : Type 0} where
  pub choice-Below :
      (n : ℕ) (b : Bool) (m k : Io A) → Below n m → Below n k → Below n (if b then m else k)
  choice-Below n true m k h g = h
  choice-Below n false m k h g = g

  -- A loop whose body waits for a packet: the rest has one byte less to come.
  pub wait-Below :
      (raises : Callback) (fuel : ℕ) (f : Option ℕ → Io A)
      → ((op : Option ℕ) → Below fuel (f op))
      → Below (suc fuel) (wait_msg raises >>= f)
  wait-Below raises fuel f b l h =
      Run-Below fuel l (wait_msg raises l) f (wait_msg-Tame raises l)
        (weaker (length l.inbound) fuel (wait_msg raises l) (wait_msg-Took raises l) (omega arith))
        b
    where
      weaker : (n m : ℕ) (r : Outcome (Option ℕ) × Link) → Took n r → n ≤ m → Took m r
      weaker n m (returned a, k) t h = omega arith
      weaker n m (raised e, k) t h = tt
