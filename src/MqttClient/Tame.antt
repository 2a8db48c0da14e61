-- ===== src/MqttClient/Tame.antt =====
-- What no operation on the socket does but a change of its mode: each feeds before it blocks, asks for
-- at most 20480 bytes and leaves the timeout alone.
pub mod Packet
use pico_dualcore.Prelude.{
  ℕ, zero, suc, ◌+◌, ◌-◌, ◌*◌, ◌/◌, ◌%◌, ◌^◌, ◌≤◌, ◌<◌, max, Bool, true, false, not, ◌||◌, Option,
  none, some, [], ◌∷◌, ◌≡◌, refl, ◌∙◌, ap, if◌then◌else◌, leb, ◌==◌, length, arith,
}
use pico_dualcore.MqttClient.Socket.{
  Bytes, Io, Link, Outcome, returned, raised, Raised, os_error, callback_error, out_of_fuel, pure,
  fail, go_on, ◌>>=◌, ◌>>◌, service, read, write, taken, left, require, abort_corrupt_inbound,
  enough, read_required, serviced_write, written, send_str, advance_packet_id, first, from_u16,
}
use pico_dualcore.MqttClient.Receive.{
  Callback, deliver, receive_length_from, receive_body, receive_publish, receive, first_byte,
  wait_msg, qos, max_inbound_packet_bytes,
}

pub record Reaches (l k : Link) : Type 0 where
  pub shrinks : length k.inbound ≤ length l.inbound
  pub timed : k.timed ≡ l.timed
  pub mode_changes : k.mode_changes ≡ l.mode_changes
  pub unfed : k.unfed ≡ l.unfed
  pub largest : k.largest ≤ max l.largest 20480

pub Reaches-refl : (l : Link) → Reaches l l
Reaches-refl l = record {
  shrinks = omega arith;
  timed = refl;
  mode_changes = refl;
  unfed = refl;
  largest = omega arith;
}

pub Reaches-trans : (l k j : Link) → Reaches l k → Reaches k j → Reaches l j
Reaches-trans l k j a b = record {
  shrinks = let p = a.shrinks in let q = b.shrinks in omega arith;
  timed = b.timed ∙ a.timed;
  mode_changes = b.mode_changes ∙ a.mode_changes;
  unfed = b.unfed ∙ a.unfed;
  largest = let p = a.largest in let q = b.largest in omega arith;
}

-- A loop that ran out of its fuel is the only outcome that the code has not.
abbrev pub Real : Raised → Type 0
Real out_of_fuel = ⊥
Real e = Unit

abbrev pub Ended : {A : Type 0} → Outcome A → Type 0
Ended (returned a) = Unit
Ended (raised e) = Real e

-- The run of an action from a link.
abbrev pub Run : {A : Type 0} → Link → Outcome A × Link → Type 0
Run l r = Reaches l r.1 × Ended r.0

abbrev pub Tame : {A : Type 0} → Io A → Type 0
Tame m = (l : Link) → Run l (m l)

module _ {A B : Type 0} where
  Run-on :
      (l : Link) (r : Outcome A × Link) (f : A → Io B)
      → Run l r
      → ((a : A) → Tame (f a))
      → Run l (go_on f r)
  Run-on l (returned a, k) f (h, e) t = let (g, s) = t a k in (Reaches-trans l k _ h g, s)
  Run-on l (raised x, k) f (h, e) t = (h, e)

  pub bind : (m : Io A) (f : A → Io B) → Tame m → ((a : A) → Tame (f a)) → Tame (m >>= f)
  bind m f h t l = Run-on l (m l) f (h l) t

module _ {A : Type 0} where
  pub choice : (b : Bool) (m k : Io A) → Tame m → Tame k → Tame (if b then m else k)
  choice true m k h g = h
  choice false m k h g = g

  pub pure-Tame : (a : A) → Tame (pure a)
  pure-Tame a l = (Reaches-refl l, tt)

module _ (A : Type 0) where
  pub fail-Tame : (e : Raised) → Real e → Tame {A = A} (fail e)
  fail-Tame e h l = (Reaches-refl l, h)

  pub abort-Tame : Tame {A = A} abort_corrupt_inbound
  unfolding abort_corrupt_inbound
  abort-Tame l = (
    record {
      shrinks = omega arith;
      timed = refl;
      mode_changes = refl;
      unfed = refl;
      largest = omega arith;
    },
    tt,
  )

or_false : (b : Bool) → (b || false) ≡ b
or_false true = refl
or_false false = refl

length-left : (n : ℕ) (bs : Bytes) → length (left n bs) ≤ length bs
length-left zero bs = omega arith
length-left (suc n) [] = omega arith
length-left (suc n) (b ∷ bs) = omega (arith, length-left n bs)

pub require-Tame : (b : Bool) → Tame (require b)
unfolding require
require-Tame true = pure-Tame tt
require-Tame false = abort-Tame Unit

-- A read behind its feed; `f` is what is made of the bytes.
module _ {A : Type 0} where
  pub fed_read :
      (n : ℕ) (f : Bytes → Io A)
      → n ≤ 20480
      → ((bs : Bytes) → Tame (f bs))
      → Tame (service >> (read n >>= f))
  unfolding service read
  fed_read n f h t l =
      let k : Link = (read n (service l).1).1 in
      let (g, s) = t (taken n l.inbound) k in
      (
        Reaches-trans l k _
            (record {
              shrinks = length-left n l.inbound;
              timed = refl;
              mode_changes = refl;
              unfed = or_false l.unfed;
              largest = omega arith;
            })
            g,
        s,
      )

enough-Tame : (n : ℕ) (bs : Bytes) → Tame (enough n bs)
enough-Tame n bs =
    choice (length bs == n) (pure bs) (fail os_error) (pure-Tame bs) (fail-Tame Bytes os_error tt)

pub read_required-Tame : (n : ℕ) → n ≤ 20480 → Tame (read_required n)
unfolding read_required
read_required-Tame n h = fed_read n (enough n) h (enough-Tame n)

pub serviced_write-Tame : (bs : Bytes) → Tame (serviced_write bs)
unfolding service write
serviced_write-Tame bs l = (
  record {
    shrinks = omega arith;
    timed = refl;
    mode_changes = refl;
    unfed = or_false l.unfed;
    largest = omega arith;
  },
  ended (leb (length bs) l.capacity),
)
  where
    ended : (b : Bool) → Ended (written b)
    ended true = tt
    ended false = tt

pub send_str-Tame : (s : Bytes) → Tame (send_str s)
unfolding send_str
send_str-Tame s =
    bind (serviced_write _) (λ u. serviced_write s) (serviced_write-Tame _)
      (λ u. serviced_write-Tame s)

pub advance_packet_id-Tame : Tame advance_packet_id
unfolding advance_packet_id
advance_packet_id-Tame l = (
  record {
    shrinks = omega arith;
    timed = refl;
    mode_changes = refl;
    unfed = refl;
    largest = omega arith;
  },
  tt,
)
