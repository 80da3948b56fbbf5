-- ===== src/Client/Silence.antt =====
-- Heartbeats: a silent connection is suspected and then closed, and a PONG in time recovers it.
use kmtproto.Prelude.{ℕ, ◌≡◌, ◌≤ℤ◌, [], ◌∷◌, none, some, lit, nat_eq, arith, text_eq_iff, refl}
use kmtproto.Wire.{Json, Envelope, PongPayload, ready, suspect, ok, decode_payload}
use kmtproto.Client.{
  done, Client, PendingPing, close_connection, check_heartbeat, go_disconnected, handle_pong,
  elapsed,
}

module _ (c : Client) (p : PendingPing) (pending : c.pending_ping ≡ some p) (r : c.state ≡ ready)
    (first : ℕ) (late : c.config.heartbeat_timeout ≤ℤ elapsed first p.sent_at) where
  suspected : Client
  suspected = record c { state = suspect; suspect_at = first }

  becomes_suspect : check_heartbeat c c.generation first ≡ done suspected []
  unfolding check_heartbeat suspected
  becomes_suspect = ground (arith, pending, r, late)

  closes :
      (second : ℕ)
      → c.config.disconnect_grace ≤ℤ elapsed second first
      → check_heartbeat suspected suspected.generation second
        ≡ done (go_disconnected suspected) (close_connection (lit "heartbeat timeout") ∷ [])
  unfolding check_heartbeat suspected
  closes second grace = ground (arith, pending, grace)

  -- In READY with an unanswered PING: the first check after the heartbeat timeout makes the connection
  -- SUSPECT, and a check after the disconnect grace from then on closes it.
  pub check_heartbeat-silence_closes :
      (second : ℕ)
      → c.config.disconnect_grace ≤ℤ elapsed second first
      → let c' = (check_heartbeat c c.generation first).0 in
        (c'.state ≡ suspect)
        × (check_heartbeat c' c'.generation second
            ≡ (go_disconnected c', ok (close_connection (lit "heartbeat timeout") ∷ [])))
  unfolding suspected
  check_heartbeat-silence_closes second grace = rw becomes_suspect (refl, closes second grace)

  answered_by :
      (json : Json) (frame : Envelope) (payload : PongPayload)
      → p.generation ≡ c.generation
      → decode_payload json json.decode_pong c.config.strict_validation frame.payload ≡ ok payload
      → payload.ping_id ≡ p.id
      → handle_pong json suspected suspected.generation frame
        ≡ done (record c { pending_ping = none; suspect_at = 0 }) []
  unfolding handle_pong suspected
  answered_by json frame payload generation decoded answered =
      ground (arith, pending, r, generation, decoded, answered, text_eq_iff payload.ping_id p.id)

  -- In READY with an unanswered PING of this connection: after the check that makes the connection SUSPECT,
  -- the PONG that answers the PING makes it READY again, with no PING pending.
  pub handle_pong-recovers :
      (json : Json) (frame : Envelope) (payload : PongPayload)
      → p.generation ≡ c.generation
      → decode_payload json json.decode_pong c.config.strict_validation frame.payload ≡ ok payload
      → payload.ping_id ≡ p.id
      → let c' = (check_heartbeat c c.generation first).0 in
        (c'.state ≡ suspect)
        × (handle_pong json c' c'.generation frame
            ≡ done (record c { pending_ping = none; suspect_at = 0 }) [])
  unfolding suspected
  handle_pong-recovers json frame payload generation decoded answered =
      rw becomes_suspect (refl, answered_by json frame payload generation decoded answered)
