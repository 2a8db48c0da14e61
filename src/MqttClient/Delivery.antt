-- ===== src/MqttClient/Delivery.antt =====
-- A PUBLISH as publish() writes it, read by wait_msg.
pub mod Publish
mod Tests
use pico_dualcore.Prelude.{
  ℕ, zero, suc, ◌+◌, ◌-◌, ◌*◌, ◌/◌, ◌%◌, ◌^◌, ◌≤◌, ◌<◌, max, Bool, true, false, not, ◌||◌, Option,
  none, some, List, [], ◌∷◌, ◌++◌, ◌≡◌, refl, sym, ◌∙◌, ap, subst, leb, ltb, ◌==◌, if◌then◌else◌,
  length, length-append, arith,
}
use pico_dualcore.MqttClient.{
  encode_length, publish_size, recv_len, recv_len_from, received, Received, recv_len-encode_length,
}
use pico_dualcore.MqttClient.Socket.{
  Bytes, Io, Link, Outcome, returned, raised, pure, go_on, ◌>>=◌, ◌>>◌, service, read, write,
  written, taken, left, enough, read_required, serviced_write, send_str, u16, from_u16, first,
  require,
}
use pico_dualcore.MqttClient.Receive.{
  Callback, deliver, receive_length_from, receive_body, receive_publish, receive, first_byte,
  wait_msg, qos,
}
use pico_dualcore.MqttClient.Send.{exchange, await_puback, write_message}
use pico_dualcore.MqttClient.Frames.{serviced_write-append, taken_whole}

-- The bytes behind the first two fields.
abbrev pub body : Bytes → Bytes → ℕ → Bytes
body topic msg pid = u16 (length topic) ++ (topic ++ (u16 pid ++ msg))

assoc_on :
    (k j : Io (Unit {0})) (r : Outcome (Unit {0}) × Link)
    → go_on (λ u. j) (go_on (λ u. k) r) ≡ go_on (λ u. k >> j) r
assoc_on k j (returned u, l) = refl
assoc_on k j (raised x, l) = refl

then_assoc : (m k j : Io (Unit {0})) → ((m >> k) >> j) ≡ (m >> (k >> j))
then_assoc m k j i l = assoc_on k j (m l) i

merged :
    (xs ys : Bytes) (m : Io (Unit {0}))
    → (serviced_write xs >> (serviced_write ys >> m)) ≡ (serviced_write (xs ++ ys) >> m)
merged xs ys m =
    sym (then_assoc (serviced_write xs) (serviced_write ys) m)
    ∙ ap (λ (k : Io (Unit {0})). k >> m) (serviced_write-append xs ys)

-- exchange() writes its frame as if in one piece, and waits for the PUBACK.
pub exchange-frame :
    (raises : Callback) (header topic msg : Bytes) (pid : ℕ)
    → exchange raises header topic msg pid none ≡ (
        serviced_write ((50 ∷ header) ++ body topic msg pid) >> λ l.
        await_puback (suc (length l.inbound)) raises pid l)
unfolding exchange send_str write_message
exchange-frame raises header topic msg pid =
    let wait : Io (Unit {0}) = λ l. await_puback (suc (length l.inbound)) raises pid l in
    ap (λ (m : Io (Unit {0})). serviced_write (50 ∷ header) >> m)
      (then_assoc (serviced_write (u16 (length topic))) (serviced_write topic)
          (serviced_write (u16 pid) >> (serviced_write msg >> wait))
        ∙ ap (λ (m : Io (Unit {0})). serviced_write (u16 (length topic)) >> m)
            (ap (λ (m : Io (Unit {0})). serviced_write topic >> m) (merged (u16 pid) msg wait)
              ∙ merged topic (u16 pid ++ msg) wait)
        ∙ merged (u16 (length topic)) (topic ++ (u16 pid ++ msg)) wait)
    ∙ merged (50 ∷ header) (body topic msg pid) wait

-- The bytes that arrive are these; the rest of the link but what feeds and measures it is as before.
record Near (l : Link) (rest : Bytes) (k : Link) : Type 0 where
  inbound : k.inbound ≡ rest
  outbound : k.outbound ≡ l.outbound
  capacity : k.capacity ≡ l.capacity
  delivered : k.delivered ≡ l.delivered

Near-trans : (l k j : Link) (bs cs : Bytes) → Near l bs k → Near k cs j → Near l cs j
Near-trans l k j bs cs a b = record {
  inbound = b.inbound;
  outbound = b.outbound ∙ a.outbound;
  capacity = b.capacity ∙ a.capacity;
  delivered = b.delivered ∙ a.delivered;
}

-- An action that returns `a` and leaves the bytes `rest`.
abbrev Gets : {A : Type 0} → Link → Outcome A × Link → A → Bytes → Type 0
Gets l r a rest = (k : Link) × (r ≡ (returned a, k)) × Near l rest k

taken_front : (n : ℕ) (xs ys : Bytes) → length xs ≡ n → taken n (xs ++ ys) ≡ xs
taken_front zero [] ys h = refl
taken_front zero (x ∷ xs) ys h = absurd (omega arith)
taken_front (suc n) [] ys h = absurd (omega arith)
taken_front (suc n) (x ∷ xs) ys h = ap (λ bs. x ∷ bs) (taken_front n xs ys (omega arith))

left_front : (n : ℕ) (xs ys : Bytes) → length xs ≡ n → left n (xs ++ ys) ≡ ys
left_front zero [] ys h = refl
left_front zero (x ∷ xs) ys h = absurd (omega arith)
left_front (suc n) [] ys h = absurd (omega arith)
left_front (suc n) (x ∷ xs) ys h = left_front n xs ys (omega arith)

enough_lem : (n : ℕ) (bs : Bytes) (l : Link) → length bs ≡ n → enough n bs l ≡ (returned bs, l)
enough_lem n bs l h = let e : (length bs == n) ≡ true = ground arith in rw e refl

Gets-bytes :
    (n : ℕ) (bs rest : Bytes) (l : Link)
    → length bs ≡ n
    → l.inbound ≡ bs ++ rest
    → Gets l (read_required n l) bs rest
unfolding read_required service read
Gets-bytes n bs rest l h e =
    let k : Link = (read n (service l).1).1 in
    let t : taken n l.inbound ≡ bs = ap (taken n) e ∙ taken_front n bs rest h in
    (
      k,
      ap (λ xs. enough n xs k) t ∙ enough_lem n bs k h,
      record {
        inbound = ap (left n) e ∙ left_front n bs rest h;
        outbound = refl;
        capacity = refl;
        delivered = refl;
      },
    )

module _ {A B : Type 0} where
  -- What follows goes on from there.
  chain :
      (l : Link) (r : Outcome A × Link) (f : A → Io B) (a : A) (b : B) (bs cs : Bytes)
      → Gets l r a bs
      → ((k : Link) → k.inbound ≡ bs → Gets k (f a k) b cs)
      → Gets l (go_on f r) b cs
  chain l r f a b bs cs (k, e, n) g =
      let (j, e', n') = g k n.inbound in (j, ap (go_on f) e ∙ e', Near-trans l k j bs cs n n')

received_lem : (n m : ℕ) (xs ys : Bytes) → received n xs ≡ received m ys → (n ≡ m) × (xs ≡ ys)
received_lem n m xs ys h = (cc, cc)

Gets-pure :
    {A : Type 0} (a : A) (l : Link) (rest : Bytes) → l.inbound ≡ rest → Gets l (pure a l) a rest
Gets-pure a l rest e =
    (l, refl, record { inbound = e; outbound = refl; capacity = refl; delivered = refl })

after_byte :
    (last : Bool) (n m : ℕ) (bytes rest : Bytes) (more : Received) (m_more : Io ℕ) (l : Link)
    → l.inbound ≡ bytes
    → (if last then received n bytes else more) ≡ received m rest
    → (more ≡ received m rest → Gets l (m_more l) m rest)
    → Gets l ((if last then pure n else m_more) l) m rest
after_byte true n m bytes rest more m_more l e h g =
    let (same, left_over) = received_lem n m bytes rest h in
    subst (λ a. Gets l (pure n l) a rest) same (Gets-pure n l rest (e ∙ left_over))
after_byte false n m bytes rest more m_more l e h g = g h

Gets-length :
    (k n sh m : ℕ) (bytes rest : Bytes) (l : Link)
    → l.inbound ≡ bytes
    → recv_len_from k n sh bytes ≡ received m rest
    → Gets l (receive_length_from k n sh l) m rest
unfolding receive_length_from recv_len_from
Gets-length zero n sh m bytes rest l e h = cc
Gets-length (suc k) n sh m [] rest l e h = cc
Gets-length (suc k) n sh m (b ∷ bytes) rest l e h =
    chain l (read_required 1 l) _ (b ∷ []) m bytes rest (Gets-bytes 1 (b ∷ []) bytes l refl e)
      (λ j e'.
        after_byte (ltb b 128) _ m bytes rest (recv_len_from k _ (sh + 7) bytes)
          (receive_length_from k _ (sh + 7)) j e' h (Gets-length k _ (sh + 7) m bytes rest j e'))

-- The message is delivered, the answer is written, and the bytes that arrive are these.
record Done (l : Link) (rest topic msg answer : Bytes) (k : Link) : Type 0 where
  inbound : k.inbound ≡ rest
  delivered : k.delivered ≡ (topic, msg) ∷ l.delivered
  outbound : k.outbound ≡ l.outbound ++ answer

abbrev Acks : Link → Outcome (Option ℕ) × Link → ℕ → Bytes → Bytes → Bytes → Bytes → Type 0
Acks l r op rest topic msg answer =
    (k : Link) × (r ≡ (returned (some op), k)) × Done l rest topic msg answer k

module _ {A : Type 0} (op : ℕ) (rest topic msg answer : Bytes) where
  onward :
      (l : Link) (r : Outcome A × Link) (f : A → Io (Option ℕ)) (a : A) (bs : Bytes)
      → Gets l r a bs
      → 4 ≤ l.capacity
      → ((k : Link) → k.inbound ≡ bs → 4 ≤ k.capacity → Acks k (f a k) op rest topic msg answer)
      → Acks l (go_on f r) op rest topic msg answer
  onward l r f a bs (k, e, n) c g =
      let (j, e', d) = g k n.inbound (let q = n.capacity in omega arith) in
      (
        j,
        ap (go_on f) e ∙ e',
        record {
          inbound = d.inbound;
          delivered = d.delivered ∙ ap (λ ds. (topic, msg) ∷ ds) n.delivered;
          outbound = d.outbound ∙ ap (λ bs. bs ++ answer) n.outbound;
        },
      )

fits_lem : (bs : Bytes) (c : ℕ) → length bs ≤ c → written (leb (length bs) c) ≡ returned tt
fits_lem bs c h = let e : leb (length bs) c ≡ true = ground arith in rw e refl

acknowledge :
    (raises : Callback) (op : ℕ) (topic msg answer rest : Bytes) (l : Link)
    → raises topic msg ≡ false
    → length answer ≤ l.capacity
    → l.inbound ≡ rest
    → Acks l
        ((deliver raises topic msg >> (serviced_write answer >> pure (some op))) l)
        op
        rest
        topic
        msg
        answer
unfolding deliver service write
acknowledge raises op topic msg answer rest l quiet c e =
    let j : Link = record l { delivered = (topic, msg) ∷ l.delivered } in
    let k : Link = (serviced_write answer j).1 in
    (
      k,
      rw quiet (ap (λ o. go_on (λ u. pure (some op)) (o, k)) (fits_lem answer l.capacity c)),
      record {
        inbound = e;
        delivered = refl;
        outbound = ap (λ bs. l.outbound ++ bs) (taken_whole l.capacity answer c);
      },
    )
