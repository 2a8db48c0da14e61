-- ===== src/Config/Settings/Topics.antt =====
-- validate_config: the topics of a configuration that is accepted, and what its users rely on.
use Prim.Native.String.count
use Prim.Native.String.{String, count}
use text.Mathlib.TextEquality.{eq_iff}
use pico_dualcore.Prelude.{
  ℕ, suc, ◌≤◌, ◌<◌, true, false, some, List, [], ◌∷◌, ◌≡◌, ◌≢◌, refl, sym, ◌∙◌, ap, All, arith,
  length,
}
use pico_dualcore.Value.{Value, Fields, str_value, int_value}
use pico_dualcore.Config.Check.{accepted, Passed, item, lookup, text_member}
use pico_dualcore.Config.Check.Laws.{split, item_lem, Distinct, unseen}
use pico_dualcore.Config.Definition.{non_empty_string}
use pico_dualcore.Config.Settings.{
  each_key, each_distinct, distinct_topic, is_topic, codes, topic_chars, mqtt_topic_keys,
  check_texts, schema_version, validate_config,
}
use pico_dualcore.Config.Settings.Limits.{
  validate_config-Passes, each_key_lem, validate_config-Limits,
}
use pico_dualcore.Intercore.Container.{InterCore, new_inter_core}
use pico_dualcore.Intercore.Container

length-codes : (s : String) → length (codes s) ≡ count s
unfolding codes
length-codes String.[] = refl
length-codes (String.◌∷◌ c s) = ap suc (length-codes s) ∙ sym (λ i. count.cons c s i)

-- A byte of a topic: ASCII without NUL and the wildcards + (43) and # (35).
abbrev pub TopicByte : ℕ → Type 0
TopicByte c = (1 ≤ c) × (c ≤ 127) × (c ≢ 43) × (c ≢ 35)

topic_chars_lem : (cs : List ℕ) → topic_chars cs ≡ true → All TopicByte cs
unfolding topic_chars
topic_chars_lem [] h = tt
topic_chars_lem (c ∷ cs) h = (ground arith, topic_chars_lem cs (ground arith))

-- The field holds a topic.
pub record IsTopic (config : Fields) (k t : String) : Type 0 where
  pub held : lookup k config ≡ some (str_value t)
  pub not_empty : t ≢ ""
  pub short : length (codes t) ≤ 122
  pub bytes : All TopicByte (codes t)

abbrev pub Topics : Fields → List String → List String → Type 0
Topics config [] [] = Unit
Topics config (k ∷ ks) (t ∷ ts) = IsTopic config k t × Topics config ks ts
Topics config ks ts = ⊥

topic_lem :
    (k : String) (config : Fields) (v : Value)
    → lookup k config ≡ some v
    → is_topic v ≡ true
    → (t : String) × IsTopic config k t
unfolding is_topic
topic_lem k config (str_value t) e h = (
  t,
  record {
    held = e;
    not_empty = ground (arith, eq_iff t "");
    short = ground (arith, length-codes t);
    bytes = topic_chars_lem (codes t) (ground arith);
  },
)
topic_lem k config v e h = cc

topics_lem :
    (config : Fields) (ks : List String)
    → All (λ k. (v : Value) × (lookup k config ≡ some v) × (is_topic v ≡ true)) ks
    → (ts : List String) × Topics config ks ts
topics_lem config [] h = ([], tt)
topics_lem config (k ∷ ks) ((v, e, t), h) =
    let (text, topic) = topic_lem k config v e t in
    let (ts, topics) = topics_lem config ks h in (text ∷ ts, (topic, topics))

distinct_topic_lem :
    (t : String) (seen : List String) {next : List String}
    → distinct_topic (str_value t) seen ≡ accepted next
    → (text_member t seen ≡ false) × (next ≡ t ∷ seen)
unfolding distinct_topic
distinct_topic_lem t seen h = ground arith

each_distinct_lem :
    (seen ks ts : List String) (config : Fields) {u : Passed}
    → Topics config ks ts
    → each_distinct seen ks config ≡ accepted u
    → All (λ t. text_member t seen ≡ false) ts × Distinct ts
unfolding each_distinct
each_distinct_lem seen [] [] config topics h = (tt, tt)
each_distinct_lem seen [] (t ∷ ts) config topics h = absurd topics
each_distinct_lem seen (k ∷ ks) [] config topics h = absurd topics
each_distinct_lem seen (k ∷ ks) (t ∷ ts) config (topic, topics) h =
    let (v, e, h₁) = split (item k config) _ h in
    let same : v ≡ str_value t = let f = item_lem k config e in let g = topic.held in cc in
    let (next, e₁, h₂) = split (distinct_topic v seen) _ h₁ in
    let (out, is_next) = distinct_topic_lem t seen {next = next} (rw same at e₁) in
    let (outs, distinct) = each_distinct_lem (t ∷ seen) ks ts config topics (rw is_next at h₂) in
    let (nes, rest) = unseen t seen ts outs in ((out, rest), (nes, distinct))

-- The topics of a configuration that is accepted: each of the eight fields holds a text of 1 to 122
-- ASCII bytes with no NUL and no wildcard, and no two of them are the same.
pub validate_config-Topics :
    (value : Value) {config : Fields}
    → validate_config value ≡ accepted config
    → (ts : List String) × Topics config mqtt_topic_keys ts × Distinct ts
unfolding check_texts
validate_config-Topics value {config} h =
    let p = validate_config-Passes value h in
    let (v₁, e₁, h₁) = split (item "config_schema_version" config) _ p.texts in
    let (u₂, e₂, h₂) = split (schema_version v₁) _ h₁ in
    let (u₃, e₃, h₃) =
      split (each_key non_empty_string ("source" ∷ "mqtt_broker_ip_address" ∷ []) config) _ h₂ in
    let (u₄, e₄, h₄) = split (each_key is_topic mqtt_topic_keys config) _ h₃ in
    let (u₅, e₅, h₅) = split (each_distinct [] mqtt_topic_keys config) _ h₄ in
    let (ts, topics) =
      topics_lem config mqtt_topic_keys (each_key_lem is_topic mqtt_topic_keys config e₄) in
    (ts, topics, (each_distinct_lem [] mqtt_topic_keys ts config topics e₅).1)

-- main.py makes the lanes with the ceiling of the configuration: with an accepted one, and
-- thresholds of the board in order, that does not raise.
pub validate_config-new_inter_core :
    (value : Value) {config : Fields} (low high : ℕ)
    → validate_config value ≡ accepted config
    → 0 < low
    → low ≤ high
    → (n : ℕ) × (c : InterCore) × (lookup "outbound_queue_max_messages" config ≡ some (int_value n))
      × (new_inter_core (int_value low) (int_value high) (int_value n) ≡ some c)
      × (c.outbound_queue.max_messages ≡ some n)
      × (n ≤ 256)
validate_config-new_inter_core value {config} low high h p q =
    let l = validate_config-Limits value h in
    let (n, e, a, b) = l.outbound_queue_max_messages in
    let (c, made, ceiling) = Container.new_inter_core_total low high n p q a in
    (n, c, e, made, ceiling, b)
