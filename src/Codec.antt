-- ===== src/Codec.antt =====
-- json_codec.go: JSONCodec.
pub mod RoundTrip
use kmtproto.Prelude.{
  pos, Bool, Text, [], ◌∷◌, ◌++◌, none, some, is_empty, length, ltb_ℤ, lit, if◌then◌else◌,
}
use kmtproto.Wire.{
  Envelope, Limits, normalize_limits, Json, fails, gives, reject_duplicate_fields, Result, ok, err,
  plain, wrapped, bad_request, new_protocol_error, refuse_if, ◌>>=◌, ◌>>◌,
}
use kmtproto.Validate.{validate_frame, validate_outbound_frame}

pub record JsonCodec : Type 0 where
  pub limits : Limits
  pub strict : Bool

-- The method `limits`.
abbrev codec_limits : JsonCodec → Limits
codec_limits c = normalize_limits c.limits

module _ (json : Json) where
  unfoldable pub encode : JsonCodec → Envelope → Result Text
  encode c frame = do
    validate_outbound_frame json frame (codec_limits c) c.strict
    elim (json.encode_envelope frame) [
      | fails message ↦ err (wrapped (lit "encode frame: ") (plain message))
      | gives bytes ↦ ok bytes
    ]

  unfoldable pub decode : JsonCodec → Text → Result Envelope
  decode c bytes = do
    refuse_if (is_empty bytes) (new_protocol_error bad_request (lit "empty frame"))
    refuse_if (ltb_ℤ (codec_limits c).max_frame_size (pos (length bytes)))
        (new_protocol_error bad_request (lit "frame exceeds maximum size"))
    if c.strict then reject_duplicate_fields json bytes (lit "payload" ∷ []) else ok tt
    elim (json.decode_envelope c.strict bytes) [
      | fails message ↦
          err (new_protocol_error bad_request (lit "invalid envelope JSON: " ++ message))
      | gives (frame, some message) ↦ err (new_protocol_error bad_request message)
      | gives (frame, none) ↦ (do validate_frame json frame (codec_limits c) c.strict; ok frame)
    ]
