-- ===== src/Core0/Boundary.antt =====
-- core0.py: the staged validation of a command, and the invariant of the boundary.
use text.Mathlib.Text.{◌==◌ as str_eq}
use text.Mathlib.TextEquality.{eq_iff}
use pico_dualcore.Prelude.{
  Bool, true, false, not, ◌&&◌, ◌||◌, String, Option, none, some, List, [], ◌∷◌, ◌≡◌, inr, refl,
  sym, subst, ap, ◌∙◌, if◌then◌else◌, leb, ltb, length, arith,
}
use Prim.Native.String.{count}
use pico_dualcore.Value.{Value, Fields, str_value, dict_value, none_value}
use pico_dualcore.Config.Check.{lookup, get, is_empty}
use pico_dualcore.CommandProtocol.{
  member, is_supported_command, command_envelope_keys, unknown_field_names, max_command_length,
}
use pico_dualcore.Core0.World.{World}
use pico_dualcore.Core0.State.{Core0, Result, ok, Done, pure, act, max_pending_core0_responses}
use pico_dualcore.Core0.Basics.{error_of, command_error, is_recent_command_id, remember_command_id}
use pico_dualcore.Core0.Handlers.{
  answer, command_reboot, command_get_details, command_read_config, command_write_config,
  handle_reboot_command, handle_get_details_command, handle_read_config_command,
  handle_write_config_command,
}
use pico_dualcore.Core0.Command.{dispatch, with_object, with_payload, with_command, claimed, admit}
use pico_dualcore.Core0.Settled.{
  HasRoom, Settled, refuse-Ends, handle_reboot_command-Ends, handle_get_details_command-Ends,
  handle_read_config_command-Ends, handle_write_config_command-Ends,
}

-- The one command that is not answered: a write-config for all.
abbrev pub IsSilent : Bool → Value → Type 0
IsSilent broadcast command = (command ≡ str_value command_write_config) × (broadcast ≡ true)

differs : (a b : String) → str_eq a b ≡ false → str_eq b a ≡ false
differs a b e = ground (arith, eq_iff a b, eq_iff b a)

none_left :
    (command : String)
    → is_supported_command command ≡ true
    → str_eq command command_reboot ≡ false
    → str_eq command command_get_details ≡ false
    → str_eq command command_read_config ≡ false
    → str_eq command command_write_config ≡ false
    → ⊥
unfolding is_supported_command member
none_left command supported e₁ e₂ e₃ e₄ =
    let d₁ = differs command command_reboot e₁ in
    let d₂ = differs command command_get_details e₂ in
    let d₃ = differs command command_read_config e₃ in
    let d₄ = differs command command_write_config e₄ in
    cc (
      sym supported
      ∙ ap (λ b. b || rest₁) d₁
      ∙ ap (λ b. b || rest₂) d₃
      ∙ ap (λ b. b || rest₃) d₄
      ∙ ap (λ b. b || false) d₂)
  where
    rest₃ : Bool
    rest₃ = str_eq command_get_details command || false

    rest₂ : Bool
    rest₂ = str_eq command_write_config command || rest₃

    rest₁ : Bool
    rest₁ = str_eq command_read_config command || rest₂

module _ (w : World) (command_id : String) (targeted broadcast : Bool) (c : Core0)
    (room : HasRoom c) where
  abbrev Staged : Value → Result Done × Core0 → Type 0
  Staged command = Settled w command_id targeted (IsSilent broadcast command) c

  refused :
      (command shown error : Value)
      → Staged command (ok tt, answer (command_error command_id targeted shown error) c)
  refused command shown error =
      refuse-Ends w command_id targeted (IsSilent broadcast command) c room shown error

  dispatch-Staged :
      (command : String) (payload : Fields)
      → is_supported_command command ≡ true
      → Staged (str_value command) (dispatch w command_id targeted broadcast command payload c)
  unfolding dispatch is_supported_command member
  dispatch-Staged command payload supported =
      go (str_eq command command_write_config && broadcast) (str_eq command command_reboot)
        (str_eq command command_get_details) (str_eq command command_read_config)
        (str_eq command command_write_config) refl refl refl refl refl
    where
      Quiet : Type 0
      Quiet = IsSilent broadcast (str_value command)

      go :
          (silent b₁ b₂ b₃ b₄ : Bool)
          → (str_eq command command_write_config && broadcast) ≡ silent
          → str_eq command command_reboot ≡ b₁
          → str_eq command command_get_details ≡ b₂
          → str_eq command command_read_config ≡ b₃
          → str_eq command command_write_config ≡ b₄
          → Staged (str_value command) (
              (if silent
                  then pure tt
                  else if b₁
                  then act (handle_reboot_command w command_id targeted payload)
                  else if b₂
                  then handle_get_details_command w command_id targeted payload
                  else if b₃
                  then handle_read_config_command w command_id targeted payload
                  else if b₄
                  then handle_write_config_command w command_id targeted payload
                  else pure tt)
                c)
      go true b₁ b₂ b₃ b₄ e e₁ e₂ e₃ e₄ =
          inr
            (inr (inr ((ground (arith, eq_iff command command_write_config), ground arith), refl)))
      go false true b₂ b₃ b₄ e e₁ e₂ e₃ e₄ =
          handle_reboot_command-Ends w command_id targeted Quiet c room payload
      go false false true b₃ b₄ e e₁ e₂ e₃ e₄ =
          handle_get_details_command-Ends w command_id targeted Quiet c room payload
      go false false false true b₄ e e₁ e₂ e₃ e₄ =
          handle_read_config_command-Ends w command_id targeted Quiet c room payload
      go false false false false true e e₁ e₂ e₃ e₄ =
          handle_write_config_command-Ends w command_id targeted Quiet c room payload
      go false false false false false e e₁ e₂ e₃ e₄ =
          absurd (none_left command supported e₁ e₂ e₃ e₄)

  with_object-Staged :
      (command : String) (v : Value)
      → Staged (str_value command) (with_object w command_id targeted broadcast command v c)
  unfolding with_object
  with_object-Staged command none_value = refused _ (str_value command) _
  with_object-Staged command (dict_value payload) = go (is_supported_command command) refl
    where
      go :
          (b : Bool)
          → is_supported_command command ≡ b
          → Staged (str_value command) (
              (if b
                  then dispatch w command_id targeted broadcast command payload
                  else act (
                      answer (
                        command_error command_id targeted
                          (str_value command)
                          (error_of "unsupported_command" "Unsupported command" []))))
                c)
      go true e = dispatch-Staged command payload e
      go false e = refused _ (str_value command) _
  with_object-Staged command v = refused _ (str_value command) _

  with_payload-Staged :
      (command : String) (o : Option Value)
      → Staged (str_value command) (with_payload w command_id targeted broadcast command o c)
  unfolding with_payload
  with_payload-Staged command none = refused _ (str_value command) _
  with_payload-Staged command (some v) = go (ltb max_command_length (count command))
    where
      go :
          (b : Bool)
          → Staged (str_value command) (
              (if b
                  then act (
                      answer (
                        command_error command_id targeted (str_value command) (
                          error_of "invalid_command" "Command name exceeds the 32 character bound"
                            [])))
                  else with_object w command_id targeted broadcast command v)
                c)
      go true = refused _ (str_value command) _
      go false = with_object-Staged command v

  with_command-Staged :
      (doc : Fields) (v : Value) → Staged v (with_command w command_id targeted broadcast doc v c)
  unfolding with_command
  with_command-Staged doc none_value = refused _ none_value _
  with_command-Staged doc (str_value command) = go (is_empty command)
    where
      go :
          (b : Bool)
          → Staged (str_value command) (
              (if b
                  then act (
                      answer (
                        command_error command_id targeted
                          (str_value command)
                          (error_of "invalid_command" "Command must be a non-empty string" [])))
                  else with_payload w command_id targeted broadcast command (lookup "payload" doc))
                c)
      go true = refused _ (str_value command) _
      go false = with_payload-Staged command (lookup "payload" doc)
  with_command-Staged doc v = refused _ v _

  pub claimed-Staged :
      (doc : Fields) (unknown : List String)
      → Staged (get "command" doc) (claimed w command_id targeted broadcast doc unknown c)
  unfolding claimed
  claimed-Staged doc [] = with_command-Staged doc (get "command" doc)
  claimed-Staged doc (s ∷ ss) = refused _ (get "command" doc) _

-- A command whose id is not in the cache, with room for a response, is settled once, in the state in
-- which its id is the newest of the cache: it is answered by exactly one response with its id and a bounded
-- name; or it is the reboot that is held; or it is the last event for Core 1; or, a write-config for all,
-- it changes nothing more; or a failure that leaves run() answers nothing.
pub admit-Settled :
    (w : World) (command_id : String) (broadcast : Bool) (doc : Fields) (c : Core0)
    → is_recent_command_id command_id c ≡ false
    → HasRoom c
    → Settled w command_id
        (not broadcast)
        (IsSilent broadcast (get "command" doc))
        (remember_command_id command_id c)
        (admit w command_id broadcast doc c)
unfolding admit
admit-Settled w command_id broadcast doc c new room =
    subst
      (Settled w command_id (not broadcast) (IsSilent broadcast (get "command" doc))
        (remember_command_id command_id c))
      (sym (ap chosen new ∙ ap open' room)) claim
  where
    result : Result Done × Core0
    result =
        claimed w command_id (not broadcast) broadcast doc
          (unknown_field_names command_envelope_keys doc) (remember_command_id command_id c)

    open' : Bool → Result Done × Core0
    open' b = if b then (ok tt, c) else result

    chosen : Bool → Result Done × Core0
    chosen b =
        if b
        then (ok tt, c)
        else open' (leb max_pending_core0_responses (length c.pending_core0_responses))

    claim :
        Settled w command_id
          (not broadcast)
          (IsSilent broadcast (get "command" doc))
          (remember_command_id command_id c)
          result
    claim =
        claimed-Staged w command_id (not broadcast) broadcast (remember_command_id command_id c)
          (unfold remember_command_id in room) doc (unknown_field_names command_envelope_keys doc)
