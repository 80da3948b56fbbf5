-- ===== src/Server/StateFrames.antt =====
-- server.go, buildResumeStateSnapshot: what is known of the frame that it returns.
use kmtproto.Prelude.{
  ℤ, pos, ◌≤ℤ◌, ltb_ℤ, ◌≡◌, refl, sym, subst, true, false, Text, List, [], ◌∷◌, Option, none, some,
  length, is_empty, contains, text_instance, arith,
}
use kmtproto.Wire.{
  Envelope, state_snapshot, wire_version_v2, StateObject, StateIdentity, Json, fails, gives, Result,
  ok, err, store, state_snapshot_limit_exceeded, refuse_if,
}
use kmtproto.Wire
use kmtproto.State.{
  identity, StateSnapshotLimits, SnapshotAccumulator, new_accumulator, add_objects,
  snapshot_payload,
}
use kmtproto.State.Accounting.{parts_of, new_accumulator-IsCounted, add_objects-IsCounted}
use kmtproto.Validate.{validate_outbound_frame}
use kmtproto.Server.Types.{Ending, returns, errors, panics, Services, ServerConfig, ServerState}
use kmtproto.Server.Monad.{M, then_run, of_result, ◌>>=◌}
use kmtproto.Server.Callbacks.{lane_callback}
use kmtproto.Server.Effects.{lane_callback-out}
use kmtproto.Server.Contents.{
  by_identity, snapshot_of, check_snapshot_states, resume_snapshot, state_snapshot_limits,
}
use kmtproto.Server.Snapshots.{build_resume_state_snapshot, snapshot_frame}

-- Every State object is of one of the namespaces.
abbrev pub OnlyFrom : List Text → List StateObject → Type 0
OnlyFrom namespaces [] = Unit
OnlyFrom namespaces (o ∷ states) =
    (contains o.namespace namespaces ≡ true) × OnlyFrom namespaces states

abbrev pub state_frame : Text → Text → ℤ → Text → Envelope
state_frame session_id id timestamp payload = record {
  v = wire_version_v2;
  type = state_snapshot;
  id = id;
  session_id = session_id;
  seq = 0;
  timestamp = timestamp;
  payload = payload;
}

module _ (json : Json) (config : ServerConfig) (namespaces : List Text) where
  -- A frame that carries the States that a provider returned, in the order of their identities.
  pub record Carries (session_id id : Text) (timestamp : ℤ) (bounds : StateSnapshotLimits)
      (states : List StateObject) (snapshot : Envelope) : Type 0 where
    pub few : pos (length states) ≤ℤ bounds.max_objects
    pub wanted : OnlyFrom namespaces states
    pub payload : Text
    pub encoded : json.encode_snapshot (by_identity states) ≡ gives payload
    pub framed : snapshot ≡ state_frame session_id id timestamp payload
    pub valid : validate_outbound_frame json snapshot config.limits config.strict ≡ ok tt

  both_of :
      {B : Type 0} (r : Result (Unit {0})) (next : Result B) (b : B)
      → Wire.◌>>◌ r next ≡ ok b
      → (r ≡ ok tt) × (next ≡ ok b)
  both_of (ok tt) next b e = (refl, e)
  both_of (err x) next b e = ground (arith, e)

  checked-OnlyFrom :
      (seen : List StateIdentity) (states : List StateObject)
      → check_snapshot_states json config namespaces seen states ≡ ok tt
      → OnlyFrom namespaces states
  unfolding check_snapshot_states
  checked-OnlyFrom seen [] e = tt
  checked-OnlyFrom seen (o ∷ states) e =
      (ground (arith, e), checked-OnlyFrom (identity o ∷ seen) states (ground (arith, e)))

  payload-encoded :
      (bounds : StateSnapshotLimits) (objects : List StateObject) (a full : SnapshotAccumulator)
      (payload : Text)
      → new_accumulator config.limits bounds ≡ ok a
      → add_objects json a objects ≡ ok full
      → snapshot_payload json full ≡ ok payload
      → json.encode_snapshot objects ≡ gives payload
  unfolding snapshot_payload
  payload-encoded bounds objects a full payload started added paid =
      let (begun, own) = new_accumulator-IsCounted json config.limits bounds a started in
      let (counted, same) = add_objects-IsCounted json a full [] objects begun added in
      let written : json.encode_snapshot full.states ≡ gives payload = ground (arith, paid) in
      subst (λ l. json.encode_snapshot l ≡ gives payload) counted.holds written

  resume_snapshot-Carries :
      (session_id id : Text) (timestamp : ℤ) (bounds : StateSnapshotLimits)
      (states : List StateObject) (snapshot : Envelope)
      → resume_snapshot json config
          (snapshot_frame session_id id timestamp)
          bounds
          namespaces
          states
        ≡ ok snapshot
      → Carries session_id id timestamp bounds states snapshot
  unfolding resume_snapshot snapshot_of
  resume_snapshot-Carries session_id id timestamp bounds states snapshot e =
      let frame = snapshot_frame session_id id timestamp in
      let checks = check_snapshot_states json config namespaces [] states in
      let (few, rest) =
        both_of
          (refuse_if (ltb_ℤ bounds.max_objects (pos (length states)))
            (store state_snapshot_limit_exceeded))
          (Wire.◌>>◌ checks (snapshot_of json config frame bounds states)) snapshot e in
      let (checked, made) =
        both_of checks (snapshot_of json config frame bounds states) snapshot rest in
      let (a, started, filled) = parts_of (new_accumulator config.limits bounds) _ snapshot made in
      let (full, added, finished) =
        parts_of (add_objects json a (by_identity states)) _ snapshot filled in
      let (payload, paid, last) = parts_of (snapshot_payload json full) _ snapshot finished in
      let (valid, same) =
        both_of
          (validate_outbound_frame json (state_frame session_id id timestamp payload) config.limits
            config.strict)
          (ok (state_frame session_id id timestamp payload)) snapshot last in
      let framed : snapshot ≡ state_frame session_id id timestamp payload = ground (arith, same) in
      record {
        few = ground (arith, few);
        wanted = checked-OnlyFrom [] states checked;
        payload = payload;
        encoded = payload-encoded bounds (by_identity states) a full payload started added paid;
        framed = framed;
        valid =
            subst (λ f. validate_outbound_frame json f config.limits config.strict ≡ ok tt)
              (sym framed) valid;
      }

module _ {W : Type 0} where
  then_run-returns :
      {A B : Type 0} (next : A → M W B) (s : ServerState W) (o : Ending A) (b : B)
      → (then_run next s o).1 ≡ returns b
      → (a : A) × (o ≡ returns a) × ((next a s).1 ≡ returns b)
  then_run-returns next s (returns a) b e = (a, refl, e)
  then_run-returns next s (errors x) b e = ground (arith, e)
  then_run-returns next s (panics t) b e = ground (arith, e)

  of_result-returns :
      {B : Type 0} (r : Result B) (s : ServerState W) (b : B)
      → (of_result r s).1 ≡ returns b
      → r ≡ ok b
  of_result-returns (ok a) s b e = ground (arith, e)
  of_result-returns (err x) s b e = ground (arith, e)

module _ {W : Type 0} (json : Json) (config : ServerConfig) (services : Services W) where
  -- The State snapshot of a resume: it carries what the provider returned for the namespaces and the bounds of
  -- the frame, under an id that was generated for it.
  pub record IsPicture (session_id : Text) (timestamp : ℤ) (namespaces : List Text)
      (snapshot : Envelope) : Type 0 where
    pub call : List Text → StateSnapshotLimits → W → W × Ending (List StateObject)
    pub provider : services.snapshot ≡ some call
    pub id : Text
    pub filled : is_empty id ≡ false
    pub id_world : W
    pub generated : (services.new_frame_id id_world).1 ≡ returns id
    pub bounds : StateSnapshotLimits
    pub bounded :
        state_snapshot_limits json config (state_frame session_id id timestamp []) ≡ ok bounds
    pub world : W
    pub states : List StateObject
    pub returned : (call namespaces bounds world).1 ≡ returns states
    pub carries : Carries json config namespaces session_id id timestamp bounds states snapshot

  -- The frames behind the EVENTs: one such snapshot if State was asked for, and none otherwise.
  abbrev pub Pictures : Text → ℤ → Option (List Text) → List Envelope → Type 0
  Pictures session_id timestamp none snapshots = snapshots ≡ []
  Pictures session_id timestamp (some namespaces) snapshots =
      (snapshot : Envelope) × (snapshots ≡ snapshot ∷ [])
      × IsPicture session_id timestamp namespaces snapshot

  -- The id for the snapshot, where one is needed.
  abbrev pub Named : Option (List Text) → Text → Type 0
  Named none id = Unit
  Named (some namespaces) id =
      (is_empty id ≡ false) × ((w : W) × ((services.new_frame_id w).1 ≡ returns id))

  pub build-IsPicture :
      (call : List Text → StateSnapshotLimits → W → W × Ending (List StateObject))
      (session_id id : Text) (timestamp : ℤ) (namespaces : List Text) (s : ServerState W)
      (snapshot : Envelope)
      → services.snapshot ≡ some call
      → Named (some namespaces) id
      → (build_resume_state_snapshot json config call session_id id timestamp namespaces s).1
        ≡ returns snapshot
      → IsPicture session_id timestamp namespaces snapshot
  unfolding build_resume_state_snapshot
  build-IsPicture call session_id id timestamp namespaces s snapshot provider
        (filled, (w, generated)) e =
      let frame = snapshot_frame session_id id timestamp in
      let r = state_snapshot_limits json config frame in
      let finish : StateSnapshotLimits → List StateObject → M W Envelope =
        λ bounds states. of_result (resume_snapshot json config frame bounds namespaces states) in
      let (bounds, bounded, called) =
        then_run-returns
          (λ bounds. lane_callback session_id (call namespaces bounds) >>= finish bounds)
          (of_result r s).0 (of_result r s).1 snapshot e in
      let m : M W (List StateObject) = lane_callback session_id (call namespaces bounds) in
      let s' = (of_result r s).0 in
      let (states, returned, made) =
        then_run-returns (finish bounds) (m s').0 (m s').1 snapshot called in
      record {
        call = call;
        provider = provider;
        id = id;
        filled = filled;
        id_world = w;
        generated = generated;
        bounds = bounds;
        bounded = of_result-returns r s bounds bounded;
        world = s'.world;
        states = states;
        returned = lane_callback-out session_id (call namespaces bounds) states s' returned;
        carries =
            resume_snapshot-Carries json config namespaces session_id id timestamp bounds states
              snapshot
              (of_result-returns (resume_snapshot json config frame bounds namespaces states)
                (m s').0 snapshot made);
      }
