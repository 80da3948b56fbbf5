-- ===== src/Server/Served.antt =====
-- handleResume: a range of EVENTs that passed the checks, and where it comes from.
use kmtproto.Prelude.{ℕ, suc, ◌+◌, ◌-◌, ◌^◌, ◌<◌, ◌≤◌, add_u64, ◌≡◌, List, length, arith}
use kmtproto.Wire.{Envelope, Json, ResumePayload, gives, decode_payload, ok}
use kmtproto.Server.Types.{Ending, returns, Services, ServerConfig}
use kmtproto.Server.Resumes.{check_events}
use kmtproto.Server.Ranges.{Follows, check_events-end, check_events-Follows}

module _ {W : Type 0} (json : Json) (config : ServerConfig) (services : Services W)
    (frame : Envelope) where
  abbrev pub replay_call : ResumePayload → ℕ → W → W × Ending (List Envelope)
  replay_call request replay_to =
      services.replay frame.session_id request.last_seq replay_to
        (record { max_events = config.max_replay_events; max_bytes = config.max_replay_bytes })

  -- A range that passed the checks, of a decoded request.
  pub record IsServed (request : ResumePayload) (replay_to : ℕ) (events : List Envelope)
      : Type 0 where
    pub counter_world : W
    pub log_world : W
    pub counted :
        services.current_seq frame.session_id counter_world ≡ (log_world, returns replay_to)
    pub replayed : (replay_call request replay_to log_world).1 ≡ returns events
    pub asked : decode_payload json json.decode_resume config.strict frame.payload ≡ ok request
    pub ordered : Follows frame.session_id (suc request.last_seq) events
    pub whole : request.last_seq + length events ≡ replay_to
    pub bounded : length events ≤ config.max_replay_events
    pub low : request.last_seq < 2 ^ 64 - 1
    pub near : replay_to < 2 ^ 64

  pub range-IsServed :
      (request : ResumePayload) (replay_to : ℕ) (events : List Envelope)
      (counter_world log_world : W)
      → services.current_seq frame.session_id counter_world ≡ (log_world, returns replay_to)
      → (replay_call request replay_to log_world).1 ≡ returns events
      → decode_payload json json.decode_resume config.strict frame.payload ≡ ok request
      → request.last_seq < 2 ^ 64 - 1
      → request.last_seq ≤ replay_to
      → replay_to < 2 ^ 64
      → replay_to - request.last_seq ≤ config.max_replay_events
      → length events < 2 ^ 64
      → check_events json config services frame.session_id (add_u64 request.last_seq 1) events
        ≡ gives (add_u64 replay_to 1)
      → IsServed request replay_to events
  range-IsServed request replay_to events counter_world log_world counted replayed asked low behind
        small near fits checked =
      let n = suc request.last_seq in
      let first : add_u64 request.last_seq 1 ≡ n = omega arith in
      let from = rw first at checked in
      let end =
        check_events-end json config services frame.session_id n (add_u64 replay_to 1) events
          (omega arith) from in
      let whole : request.last_seq + length events ≡ replay_to = omega arith in
      record {
        counter_world = counter_world;
        log_world = log_world;
        counted = counted;
        replayed = replayed;
        asked = asked;
        ordered =
            check_events-Follows json config services frame.session_id n (add_u64 replay_to 1)
              events (omega arith) from;
        whole = whole;
        bounded = omega arith;
        low = low;
        near = small;
      }
