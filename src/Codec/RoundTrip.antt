-- ===== src/Codec/RoundTrip.antt =====
-- Decoding what was encoded.
use kmtproto.Prelude.{
  pos, ◌≡◌, ap, ◌∙◌, sym, Bool, Bool-cases, inl, inr, false, Text, [], ◌∷◌, none, is_empty, length,
  ltb_ℤ, lit, arith,
}
use kmtproto.Wire.{
  Envelope, Limits, normalize_limits, normalize_limits_idem, Json, gives, reject_duplicate_fields,
  ok,
}
use kmtproto.Validate.{validate_frame, validate_outbound_frame, validate_envelope}
use kmtproto.Codec.{JsonCodec, encode, decode}

-- What encoding/json does for the envelope at hand: the bytes that Marshal makes of it are not empty, hold no
-- repeated member outside the payload, and read back as the same envelope with nothing behind it.
pub record IsReadBack (json : Json) (strict : Bool) (frame : Envelope) (bytes : Text) : Type 0 where
  pub holds : is_empty bytes ≡ false
  pub distinct : reject_duplicate_fields json bytes (lit "payload" ∷ []) ≡ ok tt
  pub reads : json.decode_envelope strict bytes ≡ gives (frame, none)

module _ (json : Json) (frame : Envelope) (limits : Limits) where
  outbound-inbound :
      (strict : Bool)
      → validate_outbound_frame json frame (normalize_limits limits) strict
        ≡ validate_frame json frame (normalize_limits limits) strict
  unfolding validate_outbound_frame
  outbound-inbound strict =
      ap (λ l. validate_frame json frame l strict) (normalize_limits_idem limits)

  validate_envelope-size :
      (bytes : Text)
      → validate_envelope json frame limits ≡ ok tt
      → json.encode_envelope frame ≡ gives bytes
      → ltb_ℤ (normalize_limits limits).max_frame_size (pos (length bytes)) ≡ false
  unfolding validate_envelope
  validate_envelope-size bytes valid written = ground arith

  -- The first half of a validation that succeeds.
  validate_frame-envelope :
      (strict : Bool)
      → validate_frame json frame limits strict ≡ ok tt
      → validate_envelope json frame (normalize_limits limits) ≡ ok tt
  unfolding validate_frame
  validate_frame-envelope strict valid = ground arith

encode-parts :
    (json : Json) (c : JsonCodec) (frame : Envelope) (bytes : Text)
    → encode json c frame ≡ ok bytes
    → (validate_outbound_frame json frame (normalize_limits c.limits) c.strict ≡ ok tt)
      × (json.encode_envelope frame ≡ gives bytes)
unfolding encode
encode-parts json c frame bytes e = ground arith

decode-parts :
    (json : Json) (c : JsonCodec) (frame : Envelope) (bytes : Text)
    → IsReadBack json c.strict frame bytes
    → ltb_ℤ (normalize_limits c.limits).max_frame_size (pos (length bytes)) ≡ false
    → validate_frame json frame (normalize_limits c.limits) c.strict ≡ ok tt
    → decode json c bytes ≡ ok frame
unfolding decode
decode-parts json c frame bytes back size valid =
    rw (back.holds, size, back.reads, valid)
      (elim (Bool-cases c.strict) [ inl on ↦ rw (on, back.distinct) | inr off ↦ rw (off) ])

-- A frame that the codec encodes is decoded to itself: the encoder's checks imply all of the decoder's,
-- where encoding/json reads back what it wrote.
pub decode-encode :
    (json : Json) (c : JsonCodec) (frame : Envelope) (bytes : Text)
    → encode json c frame ≡ ok bytes
    → IsReadBack json c.strict frame bytes
    → decode json c bytes ≡ ok frame
decode-encode json c frame bytes e back =
    let l = c.limits in
    let (valid, written) = encode-parts json c frame bytes e in
    let inner = sym (outbound-inbound json frame l c.strict) ∙ valid in
    let envelope = validate_frame-envelope json frame (normalize_limits l) c.strict inner in
    let size =
      validate_envelope-size json frame (normalize_limits (normalize_limits l)) bytes envelope
        written in
    let same = normalize_limits_idem (normalize_limits l) ∙ normalize_limits_idem l in
    decode-parts json c frame bytes back
      (sym (ap (λ k. ltb_ℤ k.max_frame_size (pos (length bytes))) same) ∙ size) inner
