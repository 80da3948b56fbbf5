-- ===== src/Server/Snapshots.antt =====
-- server.go: the State snapshot of a resume.
use kmtproto.Prelude.{ℤ, Text, List, []}
use kmtproto.Wire.{Envelope, state_snapshot, wire_version_v2, StateObject, Json}
use kmtproto.State.{StateSnapshotLimits}
use kmtproto.Server.Types.{Ending, ServerConfig}
use kmtproto.Server.Monad.{M, of_result, ◌>>=◌}
use kmtproto.Server.Callbacks.{lane_callback}
use kmtproto.Server.Contents.{state_snapshot_limits, resume_snapshot}

abbrev pub snapshot_frame : Text → Text → ℤ → Envelope
snapshot_frame session_id frame_id timestamp = record {
  v = wire_version_v2;
  type = state_snapshot;
  id = frame_id;
  session_id = session_id;
  seq = 0;
  timestamp = timestamp;
  payload = [];
}

module _ {W : Type 0} (json : Json) (config : ServerConfig) where
  unfoldable pub build_resume_state_snapshot :
      (List Text → StateSnapshotLimits → W → W × Ending (List StateObject))
      → Text
      → Text
      → ℤ
      → List Text
      → M W Envelope
  unfolding state_snapshot_limits resume_snapshot
  build_resume_state_snapshot snapshot session_id frame_id timestamp namespaces =
      let frame = snapshot_frame session_id frame_id timestamp in
      do
        bounds ← of_result (state_snapshot_limits json config frame)
        states ← lane_callback session_id (snapshot namespaces bounds)
        of_result (resume_snapshot json config frame bounds namespaces states)
