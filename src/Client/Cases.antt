-- ===== src/Client/Cases.antt =====
-- The ways through HandleIncoming, as rules: a property of every outcome of the parts is one of the
-- whole.
use kmtproto.Prelude.{
  ℕ, ◌≡◌, refl, ◌⊎◌, Bool-cases, inl, inr, Bool, true, false, if◌then◌else◌, not, nat_beq, Text,
  List, [], ◌∷◌, Option-cases, lookup, text_instance, ◌||◌, is_empty,
}
use kmtproto.Wire.{
  Json, StateObject, StateQueryPayload, ErrorPayload, decode_payload, Envelope, FrameType, welcome,
  pong, ack, event, error, state_snapshot, state_update, Result, ok, err, Err, stale_connection,
}
use kmtproto.State.{state_sync_enabled}
use kmtproto.Validate.{validate_frame}
use kmtproto.Client.{
  Client, Outcome, fail, check, handle_incoming, handle_incoming_failure, reject_invalid, settle,
  dispatch, admitted, session_error, handle_welcome, handle_pong, handle_ack, handle_event,
  handle_state_snapshot, handle_state_update, handle_error, is_resuming, is_ready, check_requested,
  check_namespaces_allowed, answer_query, store_answer, store_resumed, handle_resume_state_snapshot,
  apply_state_objects, react_to_error, go_disconnected, close_connection, done,
}

pub Result-cases {ℓ} :
    {A : Type ℓ} (r : Result A) → ((a : A) × (r ≡ ok a)) ⊎ ((e : Err) × (r ≡ err e))
Result-cases (ok a) = inl (a, refl)
Result-cases (err e) = inr (e, refl)

pub if_cases {ℓ κ} :
    {A : Type κ} (P : A → Type ℓ) (b : Bool) (x y : A) → P x → P y → P (if b then x else y)
if_cases P true x y hx hy = hx
if_cases P false x y hx hy = hy

pub check_cases {ℓ κ} :
    {A : Type κ} (P : Outcome → Type ℓ) (c : Client) (r : Result A) (k : A → Outcome)
    → ((e : Err) → P (fail c e))
    → ((a : A) → P (k a))
    → P (check c r k)
check_cases P c (ok a) k failed passed = passed a
check_cases P c (err e) k failed passed = failed e

module _ {ℓ} (P : Outcome → Type ℓ) (json : Json) (c : Client) (g : ℕ) (frame : Envelope)
    (now : ℕ) where
  answer_query_cases :
      ((e : Err) → P (fail c e))
      → ((id : Text) (states : List StateObject) → P (store_answer json c id states))
      → (query : StateQueryPayload) → P (answer_query json c frame query)
  unfolding answer_query
  answer_query_cases failed answered query =
      check_cases P c
        (decode_payload json json.decode_snapshot c.config.strict_validation frame.payload) _ failed
        λ states.
          check_cases P c (check_requested json query states)
            (λ _. store_answer json c frame.id states) failed λ _. answered frame.id states

  resume_snapshot_cases :
      ((e : Err) → P (fail c e))
      → ((states : List StateObject) → P (store_resumed json c states))
      → P (handle_resume_state_snapshot json c frame)
  unfolding handle_resume_state_snapshot
  resume_snapshot_cases failed resumed =
      elim (Bool-cases
        (not (state_sync_enabled c.capabilities) || is_empty c.resume_state_namespaces)) [
          | inl e ↦ rw e (failed _)
          | inr e ↦ rw e (elim (Bool-cases (not c.resume_events_complete)) [
            | inl f ↦ rw f (failed _)
            | inr f ↦
                rw f
                  (elim (Result-cases (
                    decode_payload json json.decode_snapshot c.config.strict_validation
                      frame.payload)) [
                        | inr (x, r) ↦ rw r (failed x)
                        | inl (states, r) ↦
                            rw r
                              (elim (Result-cases
                                (check_namespaces_allowed json c.resume_state_namespaces states)) [
                                  | inr (x, q) ↦ rw q (failed x)
                                  | inl (u, q) ↦ rw q (resumed states)
                                ])
                      ])
          ])
        ]

  pub handle_state_snapshot_cases :
      ((e : Err) → P (fail c e))
      → ((id : Text) (states : List StateObject) → P (store_answer json c id states))
      → ((states : List StateObject) → P (store_resumed json c states))
      → P (handle_state_snapshot json c frame)
  unfolding handle_state_snapshot
  handle_state_snapshot_cases failed answered resumed = elim (Bool-cases (is_resuming c.state)) [
    | inl e ↦ rw e (resume_snapshot_cases failed resumed)
    | inr e ↦ rw e (elim (Bool-cases (not (is_ready c.state))) [
      | inl f ↦ rw f (failed _)
      | inr f ↦ rw f (elim (Bool-cases (not (state_sync_enabled c.capabilities))) [
        | inl h ↦ rw h (failed _)
        | inr h ↦ rw h (elim (Option-cases (lookup frame.id c.state_queries)) [
          | inl q ↦ rw q (failed _)
          | inr (query, q) ↦ rw q (answer_query_cases failed answered query)
        ])
      ])
    ])
  ]

  pub handle_state_update_cases :
      ((e : Err) → P (fail c e))
      → ((states : List StateObject) → P (apply_state_objects json c states))
      → P (handle_state_update json c frame)
  unfolding handle_state_update
  handle_state_update_cases failed stored = elim (Bool-cases (not (is_ready c.state))) [
    | inl f ↦ rw f (failed _)
    | inr f ↦ rw f (elim (Bool-cases (not (state_sync_enabled c.capabilities))) [
      | inl h ↦ rw h (failed _)
      | inr h ↦
          rw h
            (elim (Result-cases
              (decode_payload json json.decode_update c.config.strict_validation frame.payload)) [
                | inr (x, r) ↦ rw r (failed x)
                | inl (object, r) ↦ rw r (stored (object ∷ []))
              ])
    ])
  ]

  pub handle_error_cases :
      ((reason : Text) → P (done (go_disconnected c) (close_connection reason ∷ [])))
      → ((payload : ErrorPayload) → P (react_to_error c payload))
      → P (handle_error json c frame)
  unfolding handle_error
  handle_error_cases closed reacted =
      elim (Result-cases
        (decode_payload json json.decode_error c.config.strict_validation frame.payload)) [
          | inl (payload, r) ↦ rw (r, handle_error) (reacted payload)
          | inr (e, r) ↦ rw (r, handle_error) (closed _)
        ]

  pub dispatch_cases :
      P (handle_welcome json c frame)
      → P (handle_pong json c g frame)
      → P (handle_ack json c frame)
      → P (handle_event json c frame now)
      → P (handle_state_snapshot json c frame)
      → P (handle_state_update json c frame)
      → P (handle_error json c frame)
      → ((e : Err) → P (fail c e))
      → (type : FrameType) → P (dispatch json type c g frame now)
  unfolding dispatch
  dispatch_cases hw hp ha hv hs hu he hf welcome = hw
  dispatch_cases hw hp ha hv hs hu he hf pong = hp
  dispatch_cases hw hp ha hv hs hu he hf ack = ha
  dispatch_cases hw hp ha hv hs hu he hf event = hv
  dispatch_cases hw hp ha hv hs hu he hf state_snapshot = hs
  dispatch_cases hw hp ha hv hs hu he hf state_update = hu
  dispatch_cases hw hp ha hv hs hu he hf error = he
  dispatch_cases hw hp ha hv hs hu he hf _ = hf _

  pub handle_incoming_cases :
      P (fail c stale_connection)
      → ((e : Err) → P (reject_invalid c frame e))
      → ((e : Err) → P (handle_incoming_failure c e))
      → P (settle (dispatch json frame.type c g frame now))
      → P (handle_incoming json c g frame now)
  unfolding handle_incoming admitted
  handle_incoming_cases stale invalid failure settled =
      elim (Bool-cases (not (nat_beq g c.generation))) [
        | inl e ↦ rw e stale
        | inr e ↦
            rw e
              (elim (Result-cases
                (validate_frame json frame c.config.limits c.config.strict_validation)) [
                  | inr (x, r) ↦ rw r (invalid x)
                  | inl (u, r) ↦
                      rw r
                        (elim (Bool-cases
                          (session_error frame.type frame.session_id c.session_id)) [
                            | inl s ↦ rw s (failure _)
                            | inr s ↦ rw s settled
                          ])
                ])
      ]
