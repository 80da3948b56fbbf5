-- ===== src/Tests/Servers.antt =====
-- The processor with collaborators that always answer the same, and the gate before it.
use kmtproto.Prelude.{
  ℕ, ◌+◌, pos, true, false, ◌≡◌, refl, [], ◌∷◌, ◌++◌, some, none, List, lit, arith,
}
use kmtproto.Wire.{Json, gives, Envelope, resume, resumed, send, stale_connection, WelcomePayload}
use kmtproto.Capability.{no_capabilities}
use kmtproto.Outbound.{new_outbound_queue}
use kmtproto.Outbound.Fifo.{
  queue_run, queue_step, fresh_traffic, enqueues, takes, closes, queue_run-fifo,
}
use kmtproto.Server.{
  Services, ServerState, default_server_config, returns, no_result, closed_result, handle_send,
}
use kmtproto.Server.{truncate_utf8}
use kmtproto.Server.Truncation.{IsCut, truncate_utf8-IsCut}
use kmtproto.Server.Deliveries.{IsSpared, handle_send-spares}
use kmtproto.Admission.{new_server_admission, replace, enter, rejected}
use kmtproto.Admission.Moves.{
  Move, replaces, enters, finishes, moves, IsSound, moves-IsSound, replace-fences,
}
use kmtproto.Tests.Toy.{toy, event_frame, one_text, session_text}

abbrev resumed_welcome : WelcomePayload
resumed_welcome = record {
  mode = resumed;
  server_time = pos 0;
  resume_from = 1;
  replay_to = 2;
  state_sync = none;
  accepted_capabilities = [];
}

-- A WELCOME is read back as that of the range 1 to 2.
abbrev pub resumed_toy : Json
resumed_toy = record toy {
  decode_welcome = λ s t. gives (resumed_welcome, none);
  fields = λ t. gives ((lit "resume_from", one_text) ∷ (lit "replay_to", one_text) ∷ []);
}

-- The state counts the calls of the application; every claim finds a record, and none is won.
abbrev pub counting : Services ℕ
counting = record {
  now = λ w. (w, 0);
  new_session_id = λ w. (w, returns session_text);
  new_frame_id = λ w. (w, returns one_text);
  sum256 = λ t. one_text;
  create_session = λ s w. (w, returns tt);
  lookup_session = λ id now w. (
    w,
    returns (some (record { session_id = id; expires_at = 100; capabilities = no_capabilities })),
  );
  claim = λ s m f w. (w, returns (false, none));
  complete = λ s m a w. (w, returns tt);
  current_seq = λ s w. (w, returns 2);
  replay = λ s after through l w.
      (w, returns (event_frame 1 one_text ∷ event_frame 2 session_text ∷ []));
  append = λ s id type content now w. (w, returns (event_frame 3 id));
  handle_send = λ id content w. (w + 1, returns tt);
  get_state = none;
  snapshot = none;
  inject = none;
  await_flight = λ key w. (w, returns none);
}

abbrev pub idle_server : ServerState ℕ
idle_server = record {
  world = 0;
  outbound = new_outbound_queue;
  result = no_result;
  flights = [];
  lanes = [];
  next_flight = 0;
  done = [];
}

abbrev pub asking_frame : Envelope
asking_frame = record (event_frame 0 []) { type = resume }

abbrev send_frame : Envelope
send_frame = record (event_frame 0 one_text) { type = send }

abbrev Uncalled : ℕ → Type 0
Uncalled w = w ≡ 0

counting-IsSpared : IsSpared counting send_frame Uncalled
counting-IsSpared = record {
  ticks = λ w e. e;
  looks = λ id now w e. e;
  claims = λ f w e. e;
  waits = λ key w e. e;
  loses = λ f w o e h. ground arith;
}

handle_send-spares_example :
    (handle_send toy default_server_config counting send_frame idle_server).0.world ≡ 0
handle_send-spares_example =
    handle_send-spares toy default_server_config counting send_frame Uncalled idle_server
      counting-IsSpared refl

gate_moves : List Move
gate_moves =
    replaces
    ∷ enters 1 true asking_frame
    ∷ finishes 1 (record no_result { ready_session_id = session_text })
    ∷ enters 1 true asking_frame
    ∷ []

moves-IsSound_example : IsSound (moves gate_moves new_server_admission)
moves-IsSound_example = moves-IsSound gate_moves

replace-fences_example :
    (moves
        (replaces ∷ enters 0 true send_frame ∷ finishes 0 closed_result ∷ [])
        new_server_admission
      ≡ (replace new_server_admission none).0)
    × (enter
          (moves
            (replaces ∷ enters 0 true send_frame ∷ finishes 0 closed_result ∷ [])
            new_server_admission)
          0
          true
          send_frame
        ≡ ((replace new_server_admission none).0, rejected stale_connection))
unfolding replace
replace-fences_example =
    replace-fences new_server_admission (enters 0 true send_frame ∷ finishes 0 closed_result ∷ []) 0
      true send_frame refl (λ e. omega arith)

queue_run-fifo_example :
    let t = queue_run fresh_traffic (enqueues (send_frame ∷ asking_frame ∷ []) ∷ takes ∷ []) in
    let u = queue_run (queue_step t closes) (enqueues (send_frame ∷ []) ∷ takes ∷ []) in
    (t.accepted ≡ t.handed ++ t.queue.frames)
    × (u.accepted ≡ u.handed ++ u.queue.frames)
    × (u.accepted ≡ t.accepted)
queue_run-fifo_example =
    queue_run-fifo (enqueues (send_frame ∷ asking_frame ∷ []) ∷ takes ∷ [])
      (enqueues (send_frame ∷ []) ∷ takes ∷ [])

-- "a" and the first of the two bytes of "é", cut at two bytes.
truncate_utf8-IsCut_example :
    IsCut (0x61 ∷ 0xc3 ∷ 0xa9 ∷ []) (truncate_utf8 (0x61 ∷ 0xc3 ∷ 0xa9 ∷ []) (pos 2)) 2
truncate_utf8-IsCut_example = truncate_utf8-IsCut (0x61 ∷ 0xc3 ∷ 0xa9 ∷ []) (pos 2)
