-- ===== src/Server/Frames.antt =====
-- server.go: the frames that the processor puts into the queue, ERROR frames above all.
use kmtproto.Prelude.{
  ℕ, suc, zero, ℤ, pos, ltb_ℤ, ltb, leb, not, Bool, true, ◌&&◌, ◌||◌, Text, List, [], ◌∷◌, length,
  unix_milli, valid_string, if◌then◌else◌,
}
use kmtproto.Wire.{Envelope, error, wire_version_v2, Json, ErrorCode, behavior_for_error_code}
use kmtproto.Validate.{validate_outbound_frame}
use kmtproto.Outbound.{enqueue_batch, close}
use kmtproto.Server.Types.{returns, Services, ServerConfig}
use kmtproto.Server.Monad.{M, return, of_result, read_clock, ◌>>=◌, ◌>>◌}

-- utf8.RuneStart
abbrev pub rune_start : ℕ → Bool
rune_start b = ltb b 0x80 || leb 0xc0 b

-- The byte at an index of a slice.
abbrev pub starts_at : Text → ℕ → Bool
starts_at [] n = true
starts_at (b ∷ rest) zero = rune_start b
starts_at (b ∷ rest) (suc n) = starts_at rest n

-- `for cut > 0 && !utf8.RuneStart(value[cut]) { cut-- }`
unfoldable pub cut_back : Text → ℕ → ℕ
cut_back value zero = zero
cut_back value (suc n) =
    let before = cut_back value n in if starts_at value (suc n) then suc n else before

-- `value[:n]`
unfoldable pub first_bytes : ℕ → Text → Text
first_bytes zero value = []
first_bytes (suc n) [] = []
first_bytes (suc n) (b ∷ rest) = b ∷ first_bytes n rest

abbrev pub truncate_to : Text → ℕ → Text
truncate_to value n = if leb (length value) n then value else first_bytes (cut_back value n) value

unfoldable pub truncate_utf8 : Text → ℤ → Text
unfolding cut_back first_bytes
truncate_utf8 value (ℤ.negsuc n) = []
truncate_utf8 value (pos zero) = []
truncate_utf8 value (pos (suc n)) = truncate_to value (suc n)

-- A correlation field that does not fit is left out.
abbrev pub fitting : Text → ℤ → Text
fitting t limit = if ltb_ℤ limit (pos (length t)) || not (valid_string t) then [] else t

module _ {W : Type 0} (json : Json) (config : ServerConfig) (services : Services W) where
  unfoldable pub error_frame_at : Text → Text → ErrorCode → Text → Bool → ℤ → Envelope
  error_frame_at session_id ref_id code message retryable timestamp = record {
    v = wire_version_v2;
    type = error;
    id = [];
    session_id = fitting session_id config.limits.max_session_id_length;
    seq = 0;
    timestamp = timestamp;
    payload = json.encode_error (record {
      code = code;
      message = truncate_utf8 message config.limits.max_error_message_length;
      ref_id = fitting ref_id config.limits.max_id_length;
      retryable = retryable;
    });
  }

  -- EnqueueBatch and Enqueue, on the queue of the call.
  abbrev pub put_batch : List Envelope → M W (Unit {0})
  put_batch batch s =
      let (q, r) = enqueue_batch s.outbound batch in of_result r (record s { outbound = q })

  abbrev pub close_outbound : M W (Unit {0})
  close_outbound s = (record s { outbound = close s.outbound }, returns tt)

  unfoldable pub enqueue_frame : Envelope → M W (Unit {0})
  enqueue_frame frame = do
    of_result (validate_outbound_frame json frame config.limits config.strict)
    put_batch (frame ∷ [])

  -- BehaviorForErrorCode also reports whether it knows the code; an unknown one never closes.
  unfoldable pub enqueue_error_at : Text → Text → ErrorCode → Text → Bool → ℤ → M W (Unit {0})
  unfolding enqueue_frame error_frame_at
  enqueue_error_at session_id ref_id code message retryable timestamp =
      let (behavior, known) = behavior_for_error_code code in
      do
        enqueue_frame (error_frame_at session_id ref_id code message retryable timestamp)
        if known && behavior.close_connection then close_outbound else return tt

  unfoldable pub enqueue_error : Text → Text → ErrorCode → Text → Bool → M W (Unit {0})
  unfolding enqueue_error_at
  enqueue_error session_id ref_id code message retryable = do
    now ← read_clock services.now
    enqueue_error_at session_id ref_id code message retryable (unix_milli now)
