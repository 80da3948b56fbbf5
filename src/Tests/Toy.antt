-- ===== src/Tests/Toy.antt =====
-- An instance of encoding/json that reads one fixed value of each kind, whatever the bytes, and a
-- client with a Session.
use kmtproto.Prelude.{ℕ, pos, true, false, Text, [], ◌∷◌, none}
use kmtproto.Wire.{
  Json, gives, object, end, Envelope, event, ready, new_session, bad_request, wire_version_v2,
}
use kmtproto.Client.{Client, default_client_config, initial_client}

-- JSON text "1".
abbrev pub one_text : Text
one_text = 0x31 ∷ []

abbrev pub session_text : Text
session_text = 0x53 ∷ []

abbrev pub event_frame : ℕ → Text → Envelope
event_frame seq id = record {
  v = wire_version_v2;
  type = event;
  id = id;
  session_id = session_text;
  seq = seq;
  timestamp = pos 0;
  payload = one_text;
}

abbrev pub toy : Json
toy = record {
  valid = λ t. true;
  tokens = λ t. gives (object end, none);
  value = λ t. gives (object end, none);
  fields = λ t. gives [];
  encode_envelope = λ e. gives one_text;
  encode_object = λ o. gives one_text;
  encode_snapshot = λ o. gives one_text;
  encode_hello = λ p. one_text;
  encode_welcome = λ p. one_text;
  encode_ping = λ p. one_text;
  encode_pong = λ p. one_text;
  encode_send = λ p. one_text;
  encode_ack = λ p. one_text;
  encode_event = λ p. one_text;
  encode_resume = λ p. one_text;
  encode_query = λ p. one_text;
  encode_update = λ p. one_text;
  encode_error = λ p. one_text;
  decode_envelope = λ s t. gives (event_frame 1 one_text, none);
  decode_hello = λ s t. gives (record { client_name = one_text; capabilities = [] }, none);
  decode_welcome = λ s t. gives (
    record {
      mode = new_session;
      server_time = pos 0;
      resume_from = 0;
      replay_to = 0;
      state_sync = none;
      accepted_capabilities = [];
    },
    none,
  );
  decode_ping = λ s t. gives (record { ping_id = one_text; client_time = pos 0 }, none);
  decode_pong =
      λ s t. gives (record { ping_id = one_text; client_time = pos 0; server_time = pos 0 }, none);
  decode_send = λ s t. gives (one_text, none);
  decode_ack = λ s t. gives (one_text, none);
  decode_event = λ s t. gives (record { event_type = one_text; content = one_text }, none);
  decode_resume = λ s t. gives (record { last_seq = 0; state_sync = none }, none);
  decode_query = λ s t. gives (record { namespace = one_text; object_ids = one_text ∷ [] }, none);
  decode_snapshot = λ s t. gives ([], none);
  decode_update = λ s t. gives (
    record { namespace = one_text; object_id = one_text; version = 1; content = one_text },
    none,
  );
  decode_error = λ s t.
      gives
        (record { code = bad_request; message = one_text; ref_id = []; retryable = false }, none);
}

unfoldable pub session_client : Client
unfolding default_client_config
session_client = record (initial_client default_client_config) {
  state = ready;
  generation = 1;
  session_id = session_text;
}
