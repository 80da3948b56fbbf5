-- ===== src/Server/Stored.antt =====
-- server.go: validateStoredACK.
use kmtproto.Prelude.{not, Bool, true, false, ◌||◌, Text, text_eq, lit}
use kmtproto.Wire.{
  FrameType, ack, Envelope, Json, decode_payload, Result, ok, err, plain, wrapped, refuse_if, ◌>>=◌,
  ◌>>◌,
}
use kmtproto.Validate.{validate_outbound_frame}
use kmtproto.Server.Types.{ServerConfig}

abbrev pub is_ack : FrameType → Bool
is_ack ack = true
is_ack _ = false

-- `fmt.Errorf("…: %w", err)` around a failure.
abbrev pub wrap {ℓ} : {A : Type ℓ} → Text → Result A → Result A
wrap message (ok a) = ok a
wrap message (err e) = err (wrapped message e)

unfoldable pub validate_stored_ack :
    Json → ServerConfig → Envelope → Text → Text → Result (Unit {0})
validate_stored_ack json config stored session_id message_id = do
  wrap (lit "kmtproto: dedup store returned invalid ACK: ")
      (validate_outbound_frame json stored config.limits config.strict)
  refuse_if (not (is_ack stored.type) || not (text_eq stored.session_id session_id))
      (plain (lit "kmtproto: dedup store returned ACK for another SEND"))
  ref_id ←
      wrap (lit "kmtproto: dedup store returned invalid ACK payload: ")
        (decode_payload json json.decode_ack config.strict stored.payload)
  refuse_if (not (text_eq ref_id message_id))
      (plain (lit "kmtproto: dedup store returned ACK for another SEND"))
