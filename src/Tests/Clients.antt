-- ===== src/Tests/Clients.antt =====
-- Clients with something in flight.
use kmtproto.Prelude.{
  ◌≡◌, refl, pos, lit, [], ◌∷◌, none, some, arith, ◌*◌, ◌^◌, true, lookup, text_eq, text_instance,
  if◌then◌else◌, ◌+ℤ◌,
}
use kmtproto.Wire.{
  Envelope, ack, wire_version_v2, resuming, ready, suspect, StateObject, identity_instance,
  identity_eq, ok, err, protocol_conflict, PongPayload, decode_payload,
}
use kmtproto.State.{identity}
use kmtproto.Client.{
  replay_event_bytes, Client, receives, step, PendingPing, deliver_event, session_ready,
  close_connection, done, check_heartbeat, go_disconnected, handle_pong, handle_event,
  apply_state_objects,
}
use kmtproto.Client.Completion.{IsRest, receive_all, receive_all-completes, total_replay_bytes}
use kmtproto.Client.Outbox.{IsAccounted, step-IsAccounted}
use kmtproto.Client.CacheBounds.{total_bytes}
use kmtproto.Client.CacheSteps.{IsCached, step-IsCached}
use kmtproto.Client.CacheVersions.{IsKept, apply_state_objects-keeps_versions}
use kmtproto.Client.Redelivery.{handle_event-redelivered}
use kmtproto.Client.Silence.{check_heartbeat-silence_closes, handle_pong-recovers}
use kmtproto.Tests.Toy.{toy, session_client, event_frame, one_text, session_text}

unfoldable resuming_client : Client
unfolding session_client
resuming_client = record session_client { state = resuming; replay_to = 2 }

resuming_client-IsRest :
    IsRest resuming_client (event_frame 1 one_text ∷ event_frame 2 one_text ∷ [])
unfolding resuming_client total_replay_bytes replay_event_bytes ◌+ℤ◌
resuming_client-IsRest = record {
  phase = refl;
  stateless = refl;
  buffered_so_far = tt;
  consecutive = (refl, (refl, tt));
  complete = refl;
  fits = omega arith;
  events = omega arith;
  bytes = omega arith;
}

receive_all-completes_example :
    let (last, actions) =
      receive_all toy resuming_client (event_frame 1 one_text ∷ event_frame 2 one_text ∷ []) 0 in
    (last.state ≡ ready)
    × (last.last_seq ≡ 2)
    × (actions
        ≡ deliver_event (event_frame 1 one_text)
          ∷ deliver_event (event_frame 2 one_text)
          ∷ session_ready session_text
          ∷ [])
unfolding resuming_client
receive_all-completes_example =
    receive_all-completes toy resuming_client (event_frame 1 one_text) (event_frame 2 one_text ∷ [])
      0 resuming_client-IsRest

abbrev ack_frame : Envelope
ack_frame = record {
  v = wire_version_v2;
  type = ack;
  id = [];
  session_id = session_text;
  seq = 0;
  timestamp = pos 0;
  payload = one_text;
}

unfoldable sending_client : Client
unfolding session_client
sending_client = record session_client { outbox = (one_text, event_frame 0 one_text) ∷ [] }

holds_send : lookup one_text sending_client.outbox ≡ some (event_frame 0 one_text)
unfolding sending_client lookup text_eq
holds_send = refl

step-IsAccounted_example :
    IsAccounted one_text (event_frame 0 one_text) (step toy sending_client 0 (receives 1 ack_frame))
step-IsAccounted_example =
    step-IsAccounted toy sending_client 0 (receives 1 ack_frame) one_text (event_frame 0 one_text)
      holds_send

session_client-IsCached : IsCached session_client
unfolding session_client total_bytes
session_client-IsCached = (refl, omega arith, omega arith)

step-IsCached_example : IsCached (step toy session_client 0 (receives 1 (event_frame 1 one_text))).0
step-IsCached_example =
    step-IsCached toy session_client 0 (receives 1 (event_frame 1 one_text)) session_client-IsCached

abbrev pub first_object : StateObject
first_object = record {
  namespace = 0x61 ∷ 0x2e ∷ 0x62 ∷ [];
  object_id = one_text;
  version = 1;
  content = one_text;
}

abbrev pub second_object : StateObject
second_object = record first_object { version = 2 }

unfoldable caching_client : Client
unfolding session_client
caching_client = record session_client {
  state_objects = (identity first_object, first_object) ∷ [];
  state_bytes = pos 13;
}

caches_first : lookup (identity first_object) caching_client.state_objects ≡ some first_object
unfolding caching_client lookup identity_eq text_eq
caches_first = refl

apply_state_objects-keeps_versions_example :
    IsKept
      (identity first_object)
      first_object
      (apply_state_objects toy caching_client (second_object ∷ [])).0.state_objects
apply_state_objects-keeps_versions_example =
    apply_state_objects-keeps_versions toy caching_client (second_object ∷ [])
      (identity first_object) first_object caches_first

handle_event-redelivered_example :
    let c' = (handle_event toy session_client (event_frame 1 one_text) 0).0 in
    handle_event toy c' (event_frame 1 session_text) 0
    ≡ (c', if text_eq one_text session_text then ok [] else err protocol_conflict)
unfolding session_client
handle_event-redelivered_example =
    handle_event-redelivered toy session_client (event_frame 1 one_text)
      (event_frame 1 session_text) 0 0 refl refl (omega arith) (omega arith) refl

abbrev asked : PendingPing
asked = record { id = one_text; sent_at = 0; generation = 1 }

unfoldable asking_client : Client
unfolding session_client
asking_client = record session_client { pending_ping = some asked }

check_heartbeat-silence_closes_example :
    let c' = (check_heartbeat asking_client 1 (20 * 10 ^ 9)).0 in
    (c'.state ≡ suspect)
    × (check_heartbeat c' c'.generation (30 * 10 ^ 9)
        ≡ (go_disconnected c', ok (close_connection (lit "heartbeat timeout") ∷ [])))
unfolding asking_client
check_heartbeat-silence_closes_example =
    check_heartbeat-silence_closes asking_client asked refl refl (20 * 10 ^ 9) (omega arith)
      (30 * 10 ^ 9) (omega arith)

abbrev pong_read : PongPayload
pong_read = record { ping_id = one_text; client_time = pos 0; server_time = pos 0 }

reads_pong : decode_payload toy toy.decode_pong true one_text ≡ ok pong_read
unfolding decode_payload
reads_pong = refl

handle_pong-recovers_example :
    let c' = (check_heartbeat asking_client 1 (20 * 10 ^ 9)).0 in
    (c'.state ≡ suspect)
    × (handle_pong toy c' c'.generation ack_frame
        ≡ done (record asking_client { pending_ping = none; suspect_at = 0 }) [])
unfolding asking_client
handle_pong-recovers_example =
    handle_pong-recovers asking_client asked refl refl (20 * 10 ^ 9) (omega arith) toy ack_frame
      pong_read refl reads_pong refl
