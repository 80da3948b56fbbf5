-- ===== src/Client/Incoming.antt =====
-- client.go: HandleIncoming.
use kmtproto.Prelude.{
  ℕ, nat_beq, Bool, true, false, not, ◌&&◌, Text, [], ◌∷◌, is_empty, text_eq, lit, if◌then◌else◌,
}
use kmtproto.Wire.{
  Envelope, FrameType, welcome, pong, ack, event, error, state_snapshot, state_update, Json, ok,
  err, Err, stale_connection,
}
use kmtproto.Validate.{validate_frame}
use kmtproto.Client.Types.{Client, close_connection, Outcome, done, fail}
use kmtproto.Client.Recovery.{go_disconnected, handle_incoming_failure}
use kmtproto.Client.Connect.{violation}
use kmtproto.Client.Caching.{handle_state_snapshot, handle_state_update}
use kmtproto.Client.Handlers.{handle_welcome, handle_pong, handle_ack, handle_event, handle_error}

abbrev pub is_error_frame : FrameType → Bool
is_error_frame error = true
is_error_frame _ = false

-- The first switch: which Session a frame may name.
unfoldable pub session_error : FrameType → Text → Text → Bool
session_error welcome sent own = false
session_error error sent own = not (is_empty sent) && not (text_eq sent own)
session_error _ sent own = not (text_eq sent own)

abbrev session_violation : FrameType → Err
session_violation error = violation (lit "ERROR belongs to another session")
session_violation _ = violation (lit "frame belongs to another session")

-- The tail of HandleIncoming: an error of a handler ends a resume.
abbrev pub settle : Outcome → Outcome
settle (c, ok actions) = done c actions
settle (c, err e) = handle_incoming_failure c e

-- A frame that fails its validation; an invalid ERROR is not answered.
unfoldable pub reject_invalid : Client → Envelope → Err → Outcome
unfolding go_disconnected
reject_invalid c frame e =
    if is_error_frame frame.type
    then done (go_disconnected c) (close_connection (lit "invalid ERROR frame") ∷ [])
    else handle_incoming_failure c e

module _ (json : Json) where
  -- The second switch.
  unfoldable pub dispatch : FrameType → Client → ℕ → Envelope → ℕ → Outcome
  dispatch welcome c generation frame now = handle_welcome json c frame
  dispatch pong c generation frame now = handle_pong json c generation frame
  dispatch ack c generation frame now = handle_ack json c frame
  dispatch event c generation frame now = handle_event json c frame now
  dispatch state_snapshot c generation frame now = handle_state_snapshot json c frame
  dispatch state_update c generation frame now = handle_state_update json c frame
  dispatch error c generation frame now = handle_error json c frame
  dispatch _ c generation frame now = fail c (violation (lit "unexpected server frame type"))

  unfoldable pub admitted : Client → ℕ → Envelope → ℕ → Outcome
  unfolding session_error dispatch
  admitted c generation frame now =
      if session_error frame.type frame.session_id c.session_id
      then handle_incoming_failure c (session_violation frame.type)
      else settle (dispatch frame.type c generation frame now)

  unfoldable pub handle_incoming : Client → ℕ → Envelope → ℕ → Outcome
  unfolding admitted reject_invalid
  handle_incoming c generation frame now =
      if not (nat_beq generation c.generation)
      then fail c stale_connection
      else elim (validate_frame json frame c.config.limits c.config.strict_validation) [
        | err e ↦ reject_invalid c frame e
        | ok _ ↦ admitted c generation frame now
      ]
