-- ===== src/Core0/Reboot.antt =====
-- core0.py: the reboot, which its acknowledgement precedes.
use pico_dualcore.Prelude.{
  Bool, true, false, ◌&&◌, ◌||◌, Option, none, some, [], ◌∷◌, if◌then◌else◌, is_some,
}
use pico_dualcore.Value.{bool_value, dict_value}
use pico_dualcore.Intercore.Outbound.Lane.{has_in_flight}
use pico_dualcore.Mqtt.{is_connected}
use pico_dualcore.Core0.World.{World}
use pico_dualcore.Core0.State.{
  Core0, Stamps, Response, RebootRequest, Failure, transport, Result, ok, raise, Act, act, ◌>>◌,
}
use pico_dualcore.Core0.Basics.{object}
use pico_dualcore.Core0.Handlers.{command_reboot}
use pico_dualcore.Core0.Basics.{queue_core0_response}
use pico_dualcore.Core0.Publish.{mqtt_publish_ready}
use pico_dualcore.Core0.Service.{sleep_and_service, reset}
use pico_dualcore.Core0.Respond.{publish_response, substitute_for}

module _ (w : World) where
  abbrev pub on_request :
      (RebootRequest → RebootRequest) → Option RebootRequest → Option RebootRequest
  on_request f none = none
  on_request f (some q) = some (f q)

  abbrev pub stamp_request : (Stamps → Stamps) → Core0 → Core0
  stamp_request f c = record c {
    pending_reboot = on_request (λ q. record q { stamps = f q.stamps }) c.pending_reboot;
  }

  -- The acknowledgement of a reboot.
  abbrev pub acknowledgement : RebootRequest → Response
  acknowledgement q = record {
    command_id = q.command_id;
    command = some command_reboot;
    success = true;
    targeted = q.targeted;
    result = dict_value (object (("rebooting", bool_value true) ∷ []));
    clears_pending_reboot = false;
    stamps = q.stamps;
  }

  abbrev pub marked : Bool × Core0 → Core0
  marked (true, c) = record c {
    pending_reboot = on_request (λ q. record q { answer_queued = true }) c.pending_reboot;
  }
  marked (false, c) = c

  abbrev pub substitute_queued : RebootRequest → Option Failure → Core0 → Core0
  substitute_queued q none c = c
  substitute_queued q (some failure) c =
      let substitute = substitute_for q.command_id (some command_reboot) q.targeted failure in
      marked (queue_core0_response (record substitute { clears_pending_reboot = true }) c)

  -- The substitute for an acknowledgement that can never be sent.
  unfoldable pub queue_substitute : Option RebootRequest → Core0 → Core0
  unfolding queue_core0_response substitute_for
  queue_substitute none c = c
  queue_substitute (some q) c = substitute_queued q q.stamps.permanent_failure c

  abbrev pub acknowledged : Result Bool × Core0 → Result Bool × Core0
  acknowledged (ok true, c) =
      (do act (λ c'. record c' { pending_reboot = none }); sleep_and_service w 5; reset w) c
  acknowledged (ok false, c) = (ok false, queue_substitute c.pending_reboot c)
  acknowledged (raise transport, c) = (ok false, c)
  acknowledged (raise e, c) = (raise e, c)

  abbrev pub unless : Bool → RebootRequest → Act Bool
  unless true q c = (ok false, c)
  unless false q c = acknowledged (publish_response w stamp_request (acknowledgement q) c)

  -- Nothing is attempted beside an entry in flight, nor once the substitute is queued.
  abbrev pub perform_request : Option RebootRequest → Act Bool
  perform_request none c = (ok true, c)
  perform_request (some q) c =
      unless (has_in_flight c.intercore.outbound_queue || q.answer_queued) q c

  unfoldable pub perform_reboot : Act Bool
  unfolding publish_response queue_substitute sleep_and_service reset
  perform_reboot c = perform_request c.pending_reboot c

  -- _reboot_publish_due
  unfoldable pub reboot_publish_due : Core0 → Bool × Core0
  unfolding mqtt_publish_ready
  reboot_publish_due c =
      if is_some c.pending_reboot && is_connected c.mqtt then mqtt_publish_ready w c else (false, c)
