-- ===== src/MqttClient/Bounded.antt =====
-- The loops that wait for an answer, and the timeout round an exchange.
use pico_dualcore.Prelude.{
  ℕ, zero, suc, ◌≤◌, max, Bool, true, false, Option, none, some, [], ◌∷◌, ◌≡◌, refl, ◌∙◌, leb, ◌==◌,
  length, arith, is_some,
}
use pico_dualcore.MqttClient.Socket.{
  Bytes, Io, Link, Outcome, returned, raised, mqtt_exception, os_error, out_of_fuel, pure, fail,
  finish, finally, go_on, ◌>>=◌, settimeout, change_mode, require, read_required, serviced_write,
  send_str, u16, first, from_u16,
}
use pico_dualcore.MqttClient.Receive.{Callback}
use pico_dualcore.MqttClient.Send.{
  with_timeout, is_op, await_puback, write_message, but_last, exchange, check_suback, await_suback,
  await_pingresp,
}
use pico_dualcore.MqttClient.Tame.{
  Reaches, Run, Ended, Tame, bind, choice, pure-Tame, fail-Tame, require-Tame, read_required-Tame,
  serviced_write-Tame, send_str-Tame,
}
use pico_dualcore.MqttClient.Tame.Packet.{Below, bind-Below, choice-Below, wait-Below}

Tame-Below : {A : Type 0} (n : ℕ) (m : Io A) → Tame m → Below n m
Tame-Below n m t l h = t l

none-Below : {A : Type 0} (m : Io A) → Below 0 m
none-Below m l h = absurd (omega arith)

await_puback-Below :
    (fuel : ℕ) (raises : Callback) (pid : ℕ) → Below fuel (await_puback fuel raises pid)
unfolding await_puback
await_puback-Below zero raises pid = none-Below {A = Unit {0}} (fail out_of_fuel)
await_puback-Below (suc fuel) raises pid =
    let again = await_puback-Below fuel raises pid in
    wait-Below raises fuel _ (λ op.
      choice-Below fuel (is_op 64 op) _ _
        (bind-Below fuel (read_required 1) _ (read_required-Tame 1 (omega arith)) (λ sz.
          bind-Below fuel (require (first sz == 2)) _ (require-Tame _) (λ u.
            bind-Below fuel (read_required 2) _ (read_required-Tame 2 (omega arith)) (λ rcv_pid.
              choice-Below fuel (from_u16 rcv_pid == pid) _ _
                (Tame-Below fuel (pure tt) (pure-Tame tt)) again))))
        again)

pub check_suback-Tame : (pid : ℕ) (resp : Bytes) → Tame (check_suback pid resp)
unfolding check_suback
check_suback-Tame pid (a ∷ (b ∷ (code ∷ bs))) =
    choice _ _ _ (fail-Tame (Unit {0}) mqtt_exception tt) (
      choice (code == 128) _ _ (fail-Tame (Unit {0}) mqtt_exception tt) (require-Tame (leb code 1)))
check_suback-Tame pid [] = fail-Tame (Unit {0}) os_error tt
check_suback-Tame pid (a ∷ []) = fail-Tame (Unit {0}) os_error tt
check_suback-Tame pid (a ∷ (b ∷ [])) = fail-Tame (Unit {0}) os_error tt

pub await_suback-Below :
    (fuel : ℕ) (raises : Callback) (pid : ℕ) → Below fuel (await_suback fuel raises pid)
unfolding await_suback
await_suback-Below zero raises pid = none-Below {A = Unit {0}} (fail out_of_fuel)
await_suback-Below (suc fuel) raises pid = wait-Below raises fuel _ (λ op.
    choice-Below fuel (is_op 144 op) _ _
      (bind-Below fuel (read_required 1) _ (read_required-Tame 1 (omega arith)) (λ sz.
        bind-Below fuel (require (first sz == 3)) _ (require-Tame _) (λ u.
          bind-Below fuel (read_required 3) _ (read_required-Tame 3 (omega arith))
            (λ resp. Tame-Below fuel (check_suback pid resp) (check_suback-Tame pid resp)))))
      (await_suback-Below fuel raises pid))

pub await_pingresp-Below : (fuel : ℕ) (raises : Callback) → Below fuel (await_pingresp fuel raises)
unfolding await_pingresp
await_pingresp-Below zero raises = none-Below {A = Unit {0}} (fail out_of_fuel)
await_pingresp-Below (suc fuel) raises = wait-Below raises fuel _ (λ op.
    choice-Below fuel (is_some op) _ _ (await_pingresp-Below fuel raises)
      (Tame-Below fuel (pure tt) (pure-Tame tt)))

write_message-Tame :
    (msg : Bytes) (splice_fragment : Option Bytes) → Tame (write_message msg splice_fragment)
unfolding write_message
write_message-Tame msg none = serviced_write-Tame msg
write_message-Tame msg (some fragment) =
    bind (serviced_write (but_last msg)) _ (serviced_write-Tame _) (λ u.
      bind (serviced_write (44 ∷ [])) _ (serviced_write-Tame _) (λ u.
        bind (serviced_write fragment) _ (serviced_write-Tame _)
          (λ u. serviced_write-Tame (125 ∷ []))))

pub exchange-Tame :
    (raises : Callback) (header topic msg : Bytes) (pid : ℕ) (splice_fragment : Option Bytes)
    → Tame (exchange raises header topic msg pid splice_fragment)
unfolding exchange
exchange-Tame raises header topic msg pid splice_fragment =
    bind (serviced_write (50 ∷ header)) _ (serviced_write-Tame _) (λ u.
      bind (send_str topic) _ (send_str-Tame topic) (λ u.
        bind (serviced_write (u16 pid)) _ (serviced_write-Tame _) (λ u.
          bind (write_message msg splice_fragment) _ (write_message-Tame msg splice_fragment)
            (λ u l. await_puback-Below (suc (length l.inbound)) raises pid l (omega arith)))))

-- An outcome after which the session goes on: a value, or what the callback raised.
abbrev pub Survives : {A : Type 0} → Outcome A → Type 0
Survives (returned a) = Unit
Survives (raised mqtt_exception) = ⊥
Survives (raised os_error) = ⊥
Survives (raised e) = Unit

-- What an operation that changes the mode leaves of it.
pub record Kept {A : Type 0} (l : Link) (r : Outcome A × Link) : Type 0 where
  pub unfed : r.1.unfed ≡ l.unfed
  pub largest : r.1.largest ≤ max l.largest 20480
  pub ended : Ended r.0
  pub restored : l.timed ≡ false → 2 ≤ l.mode_changes → r.1.timed ≡ false
  pub settled : Survives r.0 → l.timed ≡ false → r.1.timed ≡ false

abbrev pub Calm : {A : Type 0} → Io A → Type 0
Calm m = (l : Link) → Kept l (m l)

pub Run-Kept : {A : Type 0} (l : Link) (r : Outcome A × Link) → Run l r → Kept l r
Run-Kept l r (h, e) = record {
  unfed = h.unfed;
  largest = h.largest;
  ended = e;
  restored = λ t n. h.timed ∙ t;
  settled = λ s t. h.timed ∙ t;
}

pub Tame-Calm : {A : Type 0} (m : Io A) → Tame m → Calm m
Tame-Calm m t l = Run-Kept l (m l) (t l)

pub bind-Calm :
    {A B : Type 0} (m : Io A) (f : A → Io B) → Tame m → ((a : A) → Calm (f a)) → Calm (m >>= f)
bind-Calm {A} {B} m f t c l = go (m l) (t l)
  where
    go : (r : Outcome A × Link) → Run l r → Kept l (go_on f r)
    go (returned a, k) (h, e) =
        let g = c a k in
        record {
          unfed = g.unfed ∙ h.unfed;
          largest = let p = h.largest in let q = g.largest in omega arith;
          ended = g.ended;
          restored = λ t n. g.restored (h.timed ∙ t) (let q = h.mode_changes in omega arith);
          settled = λ s t. g.settled s (h.timed ∙ t);
        }
    go (raised x, k) (h, e) = Run-Kept l (raised x, k) (h, e)

-- The link with the timeout of the exchange set, and m's run from it.
pub with_timeout-Calm :
    {A : Type 0} (timed : Bool) (m : Io A) → Tame m → Calm (with_timeout timed m)
unfolding settimeout
with_timeout-Calm {A} false m t l = untimed (m l) (t l)
  where
    untimed : (r : Outcome A × Link) → Run l r → Kept l (finish (pure tt) r)
    untimed (r, k) g = Run-Kept l (r, k) g
with_timeout-Calm {A} true m t l = install l.mode_changes refl
  where
    restore :
        (n : ℕ) (j : Link) (r : Outcome A) (k : Link) (c : ℕ)
        → Reaches j k
        → Ended r
        → j.unfed ≡ l.unfed
        → j.largest ≡ l.largest
        → j.mode_changes ≡ n
        → l.mode_changes ≡ suc n
        → k.mode_changes ≡ c
        → Kept l (finish (change_mode c false) (r, k))
    restore n j r k zero h e u w s d c = record {
      unfed = h.unfed ∙ u;
      largest = let p = h.largest in omega arith;
      ended = tt;
      restored = λ t two. absurd (let q = h.mode_changes in omega arith);
      settled = λ s t. absurd s;
    }
    restore n j (returned a) k (suc m) h e u w s d c = record {
      unfed = h.unfed ∙ u;
      largest = let p = h.largest in omega arith;
      ended = tt;
      restored = λ t two. refl;
      settled = λ s t. refl;
    }
    restore n j (raised x) k (suc m) h e u w s d c = record {
      unfed = h.unfed ∙ u;
      largest = let p = h.largest in omega arith;
      ended = e;
      restored = λ t two. refl;
      settled = λ s t. refl;
    }

    run :
        (n : ℕ) (j : Link) (r : Outcome A × Link)
        → Run j r
        → j.unfed ≡ l.unfed
        → j.largest ≡ l.largest
        → j.mode_changes ≡ n
        → l.mode_changes ≡ suc n
        → Kept l (finish (settimeout false) r)
    run n j (r, k) (h, e) u w s d = restore n j r k k.mode_changes h e u w s d refl

    install :
        (n : ℕ)
        → l.mode_changes ≡ n
        → Kept l (go_on (λ u. finally m (settimeout false)) (change_mode n true l))
    install zero d = record {
      unfed = refl;
      largest = omega arith;
      ended = tt;
      restored = λ t two. t;
      settled = λ s t. absurd s;
    }
    install (suc n) d = run n _ (m _) (t _) refl refl refl d
