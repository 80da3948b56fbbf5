-- ===== src/Wire/Encoding.antt =====
-- encoding/json, as the library uses it. Its grammar and its struct codecs are no code of this
-- repository: they are one parameter of the model, the record `Json`, whose operations are those
-- that the source calls. `Walk` and `decodePayload` of json_codec.go stand on it.
use kmtproto.Prelude.{
  ℕ, Bool, true, false, Text, List, [], ◌∷◌, ◌++◌, Option, none, some, lit, if◌then◌else◌, text_eq,
  text_instance, ◌||◌, ◌&&◌, nat_beq, is_empty, contains, Map, lookup, leb,
}
use kmtproto.Wire.Types.{
  Envelope, HelloPayload, WelcomePayload, PingPayload, PongPayload, EventPayload, ResumePayload,
  StateQueryPayload, StateObject,
}
use kmtproto.Wire.Errors.{
  ErrorPayload, bad_request, Result, ok, err, new_protocol_error, ◌>>◌, refuse_if,
}

-- A parsed JSON value. A number keeps its text, as `json.Number` does; an object keeps its members
-- in their order.
mutual
  pub data JsonValue : Type 0 where
    null : JsonValue
    bool : Bool → JsonValue
    string : Text → JsonValue
    number : Text → JsonValue
    array : Items → JsonValue
    object : Members → JsonValue

  pub data Items : Type 0 where
    nil : Items
    cons : JsonValue → Items → Items

  pub data Members : Type 0 where
    end : Members
    member : Text → JsonValue → Members → Members

-- A call that may fail with a message.
pub data Fallible (A : Type 0) : Type 0 where
  fails : Text → Fallible A
  gives : A → Fallible A

-- What a `json.Decoder` makes of the input: an error, or a first value and the error that
-- `ensureJSONEOF` finds behind it, if any.
abbrev pub Decoded : Type 0 → Type 0
Decoded A = Fallible (A × Option Text)

pub record Json : Type 0 where
  -- json.Valid
  pub valid : Text → Bool
  -- the whole input with every member kept, for the token walk
  pub tokens : Text → Decoded JsonValue
  -- Decode(&any) with UseNumber: of repeated members the last one
  pub value : Text → Decoded JsonValue
  -- Unmarshal into map[string]json.RawMessage
  pub fields : Text → Fallible (Map Text Text)
  -- json.Marshal of an Envelope, a StateObject, a StateSnapshotPayload
  pub encode_envelope : Envelope → Fallible Text
  pub encode_object : StateObject → Fallible Text
  pub encode_snapshot : List StateObject → Fallible Text
  -- mustPayload
  pub encode_hello : HelloPayload → Text
  pub encode_welcome : WelcomePayload → Text
  pub encode_ping : PingPayload → Text
  pub encode_pong : PongPayload → Text
  pub encode_send : Text → Text
  pub encode_ack : Text → Text
  pub encode_event : EventPayload → Text
  pub encode_resume : ResumePayload → Text
  pub encode_query : StateQueryPayload → Text
  pub encode_update : StateObject → Text
  pub encode_error : ErrorPayload → Text
  -- Decode into the struct of an envelope or a payload; the flag is DisallowUnknownFields
  pub decode_envelope : Bool → Text → Decoded Envelope
  pub decode_hello : Bool → Text → Decoded HelloPayload
  pub decode_welcome : Bool → Text → Decoded WelcomePayload
  pub decode_ping : Bool → Text → Decoded PingPayload
  pub decode_pong : Bool → Text → Decoded PongPayload
  pub decode_send : Bool → Text → Decoded Text
  pub decode_ack : Bool → Text → Decoded Text
  pub decode_event : Bool → Text → Decoded EventPayload
  pub decode_resume : Bool → Text → Decoded ResumePayload
  pub decode_query : Bool → Text → Decoded StateQueryPayload
  pub decode_snapshot : Bool → Text → Decoded (List StateObject)
  pub decode_update : Bool → Text → Decoded StateObject
  pub decode_error : Bool → Text → Decoded ErrorPayload

-- bytes.TrimSpace on the bytes that JSON can hold outside strings.
is_space : ℕ → Bool
is_space b = nat_beq b 0x20 || (leb 0x9 b && leb b 0xd)

trim_left : Text → Text
unfolding is_space
trim_left [] = []
trim_left (b ∷ t) = if is_space b then trim_left t else b ∷ t

trim_right : Text → Text
unfolding is_space
trim_right [] = []
trim_right (b ∷ t) = let rest = trim_right t in if is_space b && is_empty rest then [] else b ∷ rest

-- `bytes.Equal(bytes.TrimSpace(raw), []byte("null"))`
unfoldable pub is_null : Text → Bool
unfolding trim_left trim_right lit text_eq
is_null raw = text_eq (trim_right (trim_left raw)) (lit "null")

-- walkStrictJSONValue: the first repeated member outside the opaque ones, if any.
unfoldable mutual
  unfolding contains

  pub walk : List Text → JsonValue → Option Text
  walk opaque null = none
  walk opaque (bool b) = none
  walk opaque (string t) = none
  walk opaque (number t) = none
  walk opaque (array items) = walk_items opaque items
  walk opaque (object members) = walk_members opaque [] members

  pub walk_items : List Text → Items → Option Text
  walk_items opaque nil = none
  walk_items opaque (cons v items) = elim (walk opaque v) [
    | some t ↦ some t
    | none ↦ walk_items opaque items
  ]

  pub walk_members : List Text → List Text → Members → Option Text
  walk_members opaque seen end = none
  walk_members opaque seen (member key v rest) = elim (contains key seen) [
    | true ↦ some key
    | false ↦ elim (contains key opaque) [
      | true ↦ walk_members opaque (key ∷ seen) rest
      | false ↦ elim (walk opaque v) [
        | some t ↦ some t
        | none ↦ walk_members opaque (key ∷ seen) rest
      ]
    ]
  ]

abbrev trailing : Option Text → Result (Unit {0})
trailing none = ok tt
trailing (some message) = err (new_protocol_error bad_request message)

module _ (json : Json) where
  unfoldable pub reject_duplicate_fields : Text → List Text → Result (Unit {0})
  unfolding walk
  reject_duplicate_fields raw opaque = elim (json.tokens raw) [
    | fails message ↦ err (new_protocol_error bad_request (lit "invalid JSON object: " ++ message))
    | gives (v, rest) ↦ elim (walk opaque v) [
      | some key ↦ err (
          new_protocol_error bad_request
            (lit "invalid JSON object: duplicate object member " ++ key))
      | none ↦ trailing rest
    ]
  ]

  unfoldable pub decode_payload : {A : Type 0} → (Bool → Text → Decoded A) → Bool → Text → Result A
  unfolding reject_duplicate_fields is_null
  decode_payload decode strict raw = do
    refuse_if (is_empty raw || is_null raw) (new_protocol_error bad_request (lit "missing payload"))
    if strict then reject_duplicate_fields raw (lit "content" ∷ lit "data" ∷ []) else ok tt
    elim (decode strict raw) [
      | fails message ↦ err (new_protocol_error bad_request (lit "invalid payload: " ++ message))
      | gives (value, rest) ↦ (do trailing rest; ok value)
    ]

  unfoldable pub json_field_present : Text → Text → Result Bool
  json_field_present raw field = elim (json.fields raw) [
    | fails message ↦ err (new_protocol_error bad_request (lit "invalid payload: " ++ message))
    | gives fields ↦ ok (elim (lookup field fields) [ none ↦ false | some v ↦ true ])
  ]

  unfoldable pub json_field_present_and_non_null : Text → Text → Result Bool
  unfolding is_null
  json_field_present_and_non_null raw field = elim (json.fields raw) [
    | fails message ↦ err (new_protocol_error bad_request (lit "invalid payload: " ++ message))
    | gives fields ↦
        ok
          (elim (lookup field fields) [ none ↦ false | some v ↦ if is_null v then false else true ])
  ]
