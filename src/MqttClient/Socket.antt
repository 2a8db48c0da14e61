-- ===== src/MqttClient/Socket.antt =====
-- mqtt_client.py over its socket: the state of the client and of the link, and what each call of the
-- socket does to it. The socket is in blocking mode, with or without a timeout.
use pico_dualcore.Prelude.{
  ℕ, zero, suc, ◌+◌, ◌*◌, ◌-◌, ◌/◌, ◌%◌, max, Bool, true, false, not, ◌||◌, List, [], ◌∷◌, ◌++◌,
  if◌then◌else◌, leb, ◌==◌, length,
}
use pico_dualcore.MqttClient.{next_packet_id}

abbrev pub Bytes : Type 0
Bytes = List ℕ

-- What is raised: an MQTTException, the OSError of a link that failed, ended or timed out, or what the
-- message callback raises. The last is for loops that run on fuel.
pub data Raised : Type 0 where
  mqtt_exception os_error callback_error out_of_fuel : Raised

pub data Outcome (A : Type 0) : Type 0 where
  returned : A → Outcome A
  raised : Raised → Outcome A

pub record Link : Type 0 where
  -- The bytes that arrive before the stream ends or a read times out.
  pub inbound : Bytes
  -- The bytes written so far, and how many more the link takes before a write fails.
  pub outbound : Bytes
  pub capacity : ℕ
  -- How many more changes of the timeout succeed, and whether one is set.
  pub mode_changes : ℕ
  pub timed : Bool
  pub closed : Bool
  -- Whether the service hook was called since the last blocking operation; whether one ever went
  -- without; and the largest read asked for.
  pub fed : Bool
  pub unfed : Bool
  pub largest : ℕ
  pub pid : ℕ
  -- The calls of the callback, the last first.
  pub delivered : List (Bytes × Bytes)

abbrev pub Io : Type 0 → Type 0
Io A = Link → Outcome A × Link

abbrev pub pure : {A : Type 0} → A → Io A
pure a l = (returned a, l)

abbrev pub fail : {A : Type 0} → Raised → Io A
fail e l = (raised e, l)

abbrev pub go_on : {A B : Type 0} → (A → Io B) → Outcome A × Link → Outcome B × Link
go_on f (returned a, l) = f a l
go_on f (raised e, l) = (raised e, l)

infixl 5 ◌>>=◌ ◌>>◌
abbrev pub ◌>>=◌ : {A B : Type 0} → Io A → (A → Io B) → Io B
m >>= f = λ l. go_on f (m l)

abbrev pub ◌>>◌ : {A B : Type 0} → Io A → Io B → Io B
m >> k = m >>= λ _. k

abbrev pub after : {A : Type 0} → Outcome A → Outcome (Unit {0}) → Outcome A
after r (returned u) = r
after r (raised e) = raised e

abbrev pub finish : {A : Type 0} → Io (Unit {0}) → Outcome A × Link → Outcome A × Link
finish last (r, l) = (after r (last l).0, (last l).1)

-- try: m finally: last
abbrev pub finally : {A : Type 0} → Io A → Io (Unit {0}) → Io A
finally m last l = finish last (m l)

abbrev pub taken : ℕ → Bytes → Bytes
taken zero bs = []
taken (suc n) [] = []
taken (suc n) (b ∷ bs) = b ∷ taken n bs

abbrev pub left : ℕ → Bytes → Bytes
left zero bs = bs
left (suc n) [] = []
left (suc n) (b ∷ bs) = left n bs

-- self._service()
unfoldable pub service : Io (Unit {0})
service l = (returned tt, record l { fed = true })

-- self.sock.read(n): fewer bytes only at the end of the stream.
unfoldable pub read : ℕ → Io Bytes
read n l = (
  returned (taken n l.inbound),
  record l {
    inbound = left n l.inbound;
    fed = false;
    unfed = l.unfed || not l.fed;
    largest = max l.largest n;
  },
)

abbrev pub written : Bool → Outcome (Unit {0})
written true = returned tt
written false = raised os_error

-- self.sock.write(bs): all of it, or a part and an OSError.
unfoldable pub write : Bytes → Io (Unit {0})
write bs l = (
  written (leb (length bs) l.capacity),
  record l {
    outbound = l.outbound ++ taken l.capacity bs;
    capacity = l.capacity - length bs;
    fed = false;
    unfed = l.unfed || not l.fed;
  },
)

abbrev pub change_mode : ℕ → Bool → Io (Unit {0})
change_mode zero timed l = (raised os_error, l)
change_mode (suc n) timed l = (returned tt, record l { mode_changes = n; timed = timed })

-- self.sock.settimeout(...), with a number or with None.
unfoldable pub settimeout : Bool → Io (Unit {0})
settimeout timed l = change_mode l.mode_changes timed l

-- _abort_corrupt_inbound
unfoldable pub abort_corrupt_inbound : {A : Type 0} → Io A
abort_corrupt_inbound l = (raised mqtt_exception, record l { closed = true })

unfoldable pub require : Bool → Io (Unit {0})
require true = pure tt
require false = abort_corrupt_inbound

abbrev pub enough : ℕ → Bytes → Io Bytes
enough n chunk = if length chunk == n then pure chunk else fail os_error

-- _read_required
unfoldable pub read_required : ℕ → Io Bytes
unfolding service read
read_required n = do service; chunk ← read n; enough n chunk

-- One byte of two, most significant first: struct.pack("!H", n).
abbrev pub u16 : ℕ → Bytes
u16 n = n / 256 ∷ n % 256 ∷ []

abbrev pub first : Bytes → ℕ
first [] = 0
first (b ∷ bs) = b

abbrev pub from_u16 : Bytes → ℕ
from_u16 (a ∷ (b ∷ bs)) = a * 256 + b
from_u16 bs = 0

abbrev pub serviced_write : Bytes → Io (Unit {0})
serviced_write bs = do service; write bs

-- _send_str
unfoldable pub send_str : Bytes → Io (Unit {0})
send_str s = do serviced_write (u16 (length s)); serviced_write s

-- next_packet_id
unfoldable pub advance_packet_id : Io ℕ
advance_packet_id l = (returned (next_packet_id l.pid), record l { pid = next_packet_id l.pid })
