-- ===== src/MqttClient/Frames.antt =====
-- publish() as one write: segments are joined on the wire, whatever the link takes of them.
use pico_dualcore.Prelude.{
  ℕ, zero, suc, ◌-◌, ◌≤◌, Bool, true, false, ◌||◌, Option, none, some, [], ◌∷◌, ◌++◌, ◌≡◌, refl,
  sym, ◌∙◌, ap, leb, length, length-append, arith,
}
use pico_dualcore.MqttClient.{publish_size, encode_length}
use pico_dualcore.MqttClient.Socket.{
  Bytes, Io, Link, Outcome, go_on, ◌>>=◌, ◌>>◌, service, write, written, taken, serviced_write,
  send_str, u16,
}
use pico_dualcore.MqttClient.Receive.{Callback}
use pico_dualcore.MqttClient.Send.{
  but_last, write_message, exchange, publish, await_puback, with_timeout, packet_id_or_next,
  or_too_big,
}

taken_all :
    (c : ℕ) (xs ys : Bytes) → length xs ≤ c → taken c (xs ++ ys) ≡ xs ++ taken (c - length xs) ys
taken_all c [] ys h = ap (λ n. taken n ys) (omega arith)
taken_all zero (x ∷ xs) ys h = absurd (omega arith)
taken_all (suc c) (x ∷ xs) ys h =
    ap (λ bs. x ∷ bs) (taken_all c xs ys (omega arith) ∙ ap (λ n. xs ++ taken n ys) (omega arith))

taken_part : (c : ℕ) (xs ys : Bytes) → c ≤ length xs → taken c (xs ++ ys) ≡ taken c xs
taken_part zero xs ys h = refl
taken_part (suc c) [] ys h = absurd (omega arith)
taken_part (suc c) (x ∷ xs) ys h = ap (λ bs. x ∷ bs) (taken_part c xs ys (omega arith))

pub taken_whole : (c : ℕ) (xs : Bytes) → length xs ≤ c → taken c xs ≡ xs
taken_whole zero [] h = refl
taken_whole (suc c) [] h = refl
taken_whole zero (x ∷ xs) h = absurd (omega arith)
taken_whole (suc c) (x ∷ xs) h = ap (λ bs. x ∷ bs) (taken_whole c xs (omega arith))

pub append_assoc : (xs ys zs : Bytes) → (xs ++ ys) ++ zs ≡ xs ++ (ys ++ zs)
append_assoc [] ys zs = refl
append_assoc (x ∷ xs) ys zs = ap (λ bs. x ∷ bs) (append_assoc xs ys zs)

-- The link after so many bytes are written, of which these are sent.
abbrev sent : Link → Bytes → ℕ → Link
sent l bs c = record l {
  outbound = l.outbound ++ bs;
  capacity = c;
  fed = false;
  unfed = l.unfed || false;
}

or_false_twice : (b : Bool) → ((b || false) || false) ≡ (b || false)
or_false_twice true = refl
or_false_twice false = refl

-- The link and the outcome after a write.
abbrev wrote : Link → Bool → Bytes → ℕ → Bool → Outcome (Unit {0}) × Link
wrote l ok out c u = (written ok, record l { outbound = out; capacity = c; fed = false; unfed = u })

wrote_same :
    (l : Link) {ok ok' : Bool} {out out' : Bytes} {c c' : ℕ} {u u' : Bool}
    → ok ≡ ok'
    → out ≡ out'
    → c ≡ c'
    → u ≡ u'
    → wrote l ok out c u ≡ wrote l ok' out' c' u'
wrote_same l a b c d i = wrote l (a i) (b i) (c i) (d i)

more_written :
    (xs ys : Bytes) (l : Link) (ok : Bool)
    → leb (length xs) l.capacity ≡ ok
    → go_on
        (λ u. serviced_write ys)
        (wrote l ok (l.outbound ++ taken l.capacity xs) (l.capacity - length xs) (l.unfed || false))
      ≡ wrote l
          (leb (length (xs ++ ys)) l.capacity)
          (l.outbound ++ taken l.capacity (xs ++ ys))
          (l.capacity - length (xs ++ ys))
          (l.unfed || false)
unfolding service write
more_written xs ys l true h =
    let n = length-append xs ys in
    wrote_same l (ground arith)
      (append_assoc l.outbound (taken l.capacity xs) (taken (l.capacity - length xs) ys)
        ∙ ap (λ bs. l.outbound ++ bs)
            (ap (λ bs. bs ++ taken (l.capacity - length xs) ys)
                (taken_whole l.capacity xs (ground arith))
              ∙ sym (taken_all l.capacity xs ys (ground arith))))
      (omega arith) (or_false_twice l.unfed)
more_written xs ys l false h =
    let n = length-append xs ys in
    wrote_same l {ok = false} (ground arith)
      (ap (λ bs. l.outbound ++ bs) (sym (taken_part l.capacity xs ys (ground arith))))
      (ground arith) refl

-- Two writes are the write of both, on any link.
pub serviced_write-append :
    (xs ys : Bytes) → (serviced_write xs >> serviced_write ys) ≡ serviced_write (xs ++ ys)
unfolding service write
serviced_write-append xs ys i l = more_written xs ys l (leb (length xs) l.capacity) refl i

-- The splice on the wire: a comma, the fragment and the closing brace behind the message without its
-- own.
abbrev pub spliced : Bytes → Bytes → Bytes
spliced msg fragment = but_last msg ++ (44 ∷ (fragment ++ 125 ∷ []))

write_message-spliced :
    (msg fragment : Bytes)
    → write_message msg (some fragment) ≡ write_message (spliced msg fragment) none
unfolding write_message
write_message-spliced msg fragment =
    ap (λ (m : Io (Unit {0})). serviced_write (but_last msg) >> (serviced_write (44 ∷ []) >> m))
      (serviced_write-append fragment (125 ∷ []))
    ∙ ap (λ (m : Io (Unit {0})). serviced_write (but_last msg) >> m)
        (serviced_write-append (44 ∷ []) (fragment ++ 125 ∷ []))
    ∙ serviced_write-append (but_last msg) (44 ∷ (fragment ++ 125 ∷ []))

length-but_last : (msg : Bytes) → 1 ≤ length msg → suc (length (but_last msg)) ≡ length msg
length-but_last [] h = absurd (omega arith)
length-but_last (b ∷ []) h = refl
length-but_last (b ∷ (c ∷ bs)) h = ap suc (length-but_last (c ∷ bs) (omega arith))

publish_size-spliced :
    (topic : ℕ) (msg fragment : Bytes)
    → 1 ≤ length msg
    → publish_size topic (length msg) (some (length fragment))
      ≡ publish_size topic (length (spliced msg fragment)) none
unfolding publish_size
publish_size-spliced topic msg fragment h =
    let a = length-but_last msg h in
    let b = length-append (but_last msg) (44 ∷ (fragment ++ 125 ∷ [])) in
    let c = length-append fragment (125 ∷ []) in omega arith

-- A publish with a fragment is the publish of the one joined message, in what is written, read, raised
-- and left behind, on every link, also one that fails in the middle of the splice.
pub publish-spliced :
    (raises : Callback) (topic msg fragment : Bytes) (packet_id : Option ℕ) (timed : Bool)
    → 1 ≤ length msg
    → publish raises topic msg packet_id timed (some fragment)
      ≡ publish raises topic (spliced msg fragment) packet_id timed none
unfolding publish exchange
publish-spliced raises topic msg fragment packet_id timed h i =
    or_too_big (encode_length (publish_size-spliced (length topic) msg fragment h i)) >>= λ header.
    packet_id_or_next packet_id >>= λ pid. with_timeout timed (
      serviced_write (50 ∷ header)
      >> (send_str topic
          >> (serviced_write (u16 pid)
              >> (write_message-spliced msg fragment i >> λ l.
                  await_puback (suc (length l.inbound)) raises pid l))))
