-- ===== src/Core0/Arrive.antt =====
-- core0.py: what the messages that arrive may change.
use text.Mathlib.Text.{◌==◌ as str_eq}
use pico_dualcore.Prelude.{
  ℕ, Bool, true, false, ◌&&◌, String, Option, none, some, ◌≡◌, refl, sym, subst, ap, if◌then◌else◌,
  leb, length,
}
use pico_dualcore.Value.{Value, Fields, str_value, dict_value, none_value}
use pico_dualcore.Config.Check.{get}
use pico_dualcore.CommandProtocol.{is_bounded_command_id, broadcast_target}
use pico_dualcore.MqttClient.Socket.{Bytes}
use pico_dualcore.Intercore.Container.{set_utc_snapshot}
use pico_dualcore.Core0.World.{World, Loaded, loaded, malformed, exhausted}
use pico_dualcore.Core0.State.{Core0, Result, ok, raise, escape, pure, max_pending_core0_responses}
use pico_dualcore.Core0.Basics.{is_recent_command_id, target_matches}
use pico_dualcore.Core0.Info.{
  handle_info_response, utc_payload, utc_epoch, synchronized, utc_note_reachable_failure,
}
use pico_dualcore.Core0.Command.{
  is_version, admit, with_id, on_command, on_document, on_loaded, on_mqtt_message,
}
use pico_dualcore.Core0.Keeps.{Takes, if-Takes}
use pico_dualcore.Core0.Handlers.{is_text}
use pico_dualcore.Core0.Settled.{HasRoom}

abbrev pub IsId : String → Type 0
IsId s = is_bounded_command_id (str_value s) ≡ true

pub admit_known :
    (w : World) (command_id : String) (broadcast : Bool) (doc : Fields) (c : Core0)
    → is_recent_command_id command_id c ≡ true
    → admit w command_id broadcast doc c ≡ (ok tt, c)
unfolding admit
admit_known w command_id broadcast doc c known = rw (known, admit) refl

pub admit_full :
    (w : World) (command_id : String) (broadcast : Bool) (doc : Fields) (c : Core0)
    → is_recent_command_id command_id c ≡ false
    → leb max_pending_core0_responses (length c.pending_core0_responses) ≡ true
    → admit w command_id broadcast doc c ≡ (ok tt, c)
unfolding admit
admit_full w command_id broadcast doc c new full = rw (new, full, admit) refl

-- What a step leaves alone: the ids, the responses, the reboot, the sequences, the session and the stamp
-- of Core 1.
abbrev pub Leaves : Core0 → Core0 → Type 0
Leaves c c' =
    (c'.recent_command_ids ≡ c.recent_command_ids)
    × (c'.pending_core0_responses ≡ c.pending_core0_responses)
    × (c'.pending_reboot ≡ c.pending_reboot)
    × (c'.next_sequence ≡ c.next_sequence)
    × (c'.entry_sequences ≡ c.entry_sequences)
    × (c'.resets ≡ c.resets)
    × (c'.mqtt ≡ c.mqtt)
    × (c'.intercore.state_mailboxes.core_1_activity_ms
        ≡ c.intercore.state_mailboxes.core_1_activity_ms)

abbrev all_left : (c : Core0) → Leaves c c
all_left c = (refl, refl, refl, refl, refl, refl, refl, refl)

pub if_holds {ℓ κ} :
    {A : Type ℓ} (P : A → Type κ) (b : Bool) (x y : A) → P x → P y → P (if b then x else y)
if_holds P true x y p q = p
if_holds P false x y p q = q

failure-Leaves : (w : World) (c : Core0) → Leaves c (utc_note_reachable_failure w c)
unfolding utc_note_reachable_failure
failure-Leaves w c = all_left c

synchronized-Leaves :
    (w : World) (epoch : ℕ) (o : Option String) (c : Core0) → Leaves c (synchronized w epoch o c)
unfolding synchronized set_utc_snapshot
synchronized-Leaves w epoch none c = failure-Leaves w c
synchronized-Leaves w epoch (some text) c = all_left c

utc_epoch-Leaves : (w : World) (o : Option ℕ) (c : Core0) → Leaves c (utc_epoch w o c)
unfolding utc_epoch
utc_epoch-Leaves w none c = failure-Leaves w c
utc_epoch-Leaves w (some epoch) c = synchronized-Leaves w epoch _ c

utc_payload-Leaves : (w : World) (v : Value) (c : Core0) → Leaves c (utc_payload w v c)
unfolding utc_payload
utc_payload-Leaves w none_value c = failure-Leaves w c
utc_payload-Leaves w (dict_value payload) c =
    if_holds (Leaves c) _ _ _ (utc_epoch-Leaves w _ c) (failure-Leaves w c)
utc_payload-Leaves w v c = failure-Leaves w c

handle_info_response-Leaves :
    (w : World) (doc : Fields) (c : Core0) → Leaves c (handle_info_response w doc c)
unfolding handle_info_response
handle_info_response-Leaves w doc c =
    if_holds (Leaves c) _ _ _ (utc_payload-Leaves w _ c) (all_left c)

-- What holds after the claim of a command, however it ends, and after a step that leaves the fields of
-- Leaves alone, holds after every message that arrives.
module _ {ℓ κ} (P : Core0 → Type ℓ) (Q : Core0 → Type κ) (w : World)
    (leaves : (c c' : Core0) → Leaves c c' → P c → Q c')
    (claims : (command_id : String) (broadcast : Bool) (doc : Fields) (c : Core0)
      → IsId command_id
      → is_recent_command_id command_id c ≡ false
      → HasRoom c
      → P c
      → Q (admit w command_id broadcast doc c).1) where
  stays : {A : Type 0} (r : Result A) → Takes P Q (λ c. (r, c))
  stays r = record { at = λ c p. leaves c c (all_left c) p }

  admit-keeps :
      (command_id : String) (broadcast : Bool) (doc : Fields) (c : Core0)
      → IsId command_id
      → P c
      → Q (admit w command_id broadcast doc c).1
  admit-keeps command_id broadcast doc c b p =
      go (is_recent_command_id command_id c)
        (leb max_pending_core0_responses (length c.pending_core0_responses)) refl refl
    where
      go :
          (dup full : Bool)
          → is_recent_command_id command_id c ≡ dup
          → leb max_pending_core0_responses (length c.pending_core0_responses) ≡ full
          → Q (admit w command_id broadcast doc c).1
      go true full e f =
          subst Q (sym (ap (λ r. r.1) (admit_known w command_id broadcast doc c e)))
            (leaves c c (all_left c) p)
      go false true e f =
          subst Q (sym (ap (λ r. r.1) (admit_full w command_id broadcast doc c e f)))
            (leaves c c (all_left c) p)
      go false false e f = claims command_id broadcast doc c b e f p

  with_id-Takes :
      (broadcast : Bool) (doc : Fields) (v : Value) → Takes P Q (with_id w broadcast doc v)
  unfolding with_id
  with_id-Takes broadcast doc none_value = stays (ok tt)
  with_id-Takes broadcast doc (str_value command_id) =
      go (is_bounded_command_id (str_value command_id)) refl
    where
      go :
          (b : Bool)
          → is_bounded_command_id (str_value command_id) ≡ b
          → Takes P Q (if b then admit w command_id broadcast doc else pure tt)
      go true e = record { at = λ c p. admit-keeps command_id broadcast doc c e p }
      go false e = stays (ok tt)
  with_id-Takes broadcast doc v = stays (ok tt)

  on_command-Takes : (doc : Fields) → Takes P Q (on_command w doc)
  unfolding on_command
  on_command-Takes doc = record {
    at = λ c p. go c p (target_matches w (w.ip_address c.moment) (get "target" doc));
  }
    where
      broadcast : Bool
      broadcast = is_text broadcast_target (get "target" doc)

      go :
          (c : Core0)
          → P c
          → (b : Bool)
          → Q (if b then with_id w broadcast doc (get "command_id" doc) c else (ok tt, c)).1
      go c p true = (with_id-Takes broadcast doc (get "command_id" doc)).at c p
      go c p false = leaves c c (all_left c) p

  on_document-Takes : (topic : String) (doc : Fields) → Takes P Q (on_document w topic doc)
  unfolding on_document
  on_document-Takes topic doc =
      if-Takes P Q (is_version w (get "message_schema_version" doc))
        (if-Takes P Q (str_eq topic w.config.mqtt_topic_info_response)
          (if-Takes P Q (is_text "info_response" (get "message_type" doc))
            (record {
              at = λ c p.
                  leaves c (handle_info_response w doc c) (handle_info_response-Leaves w doc c) p;
            })
            (stays (ok tt)))
          (if-Takes P Q
            (str_eq topic w.config.mqtt_topic_command && is_text "command" (get "message_type" doc))
            (on_command-Takes doc) (stays (ok tt))))
        (stays (ok tt))

  on_loaded-Takes : (topic : String) (l : Loaded) → Takes P Q (on_loaded w topic l)
  unfolding on_loaded
  on_loaded-Takes topic malformed = stays (ok tt)
  on_loaded-Takes topic exhausted = stays (raise escape)
  on_loaded-Takes topic (loaded none_value) = stays (ok tt)
  on_loaded-Takes topic (loaded (dict_value doc)) = on_document-Takes topic doc
  on_loaded-Takes topic (loaded v) = stays (ok tt)

  pub on_mqtt_message-Takes : (topic payload : Bytes) → Takes P Q (on_mqtt_message w topic payload)
  unfolding on_mqtt_message
  on_mqtt_message-Takes topic payload = go (w.decode topic)
    where
      go :
          (o : Option String)
          → Takes P Q
              (elim o [ none ↦ pure tt | some text ↦ on_loaded w text (w.json_loads payload) ])
      go none = stays (ok tt)
      go (some text) = on_loaded-Takes text (w.json_loads payload)
