-- ===== src/Admission/Moves.antt =====
-- The critical sections of any number of concurrent calls, one after the other, and what holds between them.
use kmtproto.Prelude.{
  ℕ, ◌≡◌, ◌≢◌, refl, sym, ap, ◌∙◌, subst, ◌⊎◌, inl, inr, ◌&&◌, nat_beq, not, Bool, true, false,
  ◌||◌, List, [], ◌∷◌, none, is_empty, arith,
}
use kmtproto.Wire.{FrameType, Envelope, stale_connection}
use kmtproto.Capability.{no_capabilities}
use kmtproto.Server.{HandleResult}
use kmtproto.Admission.{
  ServerAdmission, AdmissionState, new_server_admission, replace, enter, apply_result, admit, shut,
  in_awaiting, in_ready, in_resuming, rejected,
}

-- A call of `handle` is an `enters`, with the frame and whether it is valid, and later a `finishes` with the
-- processor's result, in any order with those of other calls.
pub data Move : Type 0 where
  replaces : Move
  enters : ℕ → Bool → Envelope → Move
  finishes : ℕ → HandleResult → Move

abbrev pub move : Move → ServerAdmission → ServerAdmission
move replaces a = (replace a none).0
move (enters generation valid frame) a = (enter a generation valid frame).0
move (finishes generation result) a = apply_result a generation result

unfoldable pub moves : List Move → ServerAdmission → ServerAdmission
unfolding replace enter apply_result
moves [] a = a
moves (m ∷ rest) a = moves rest (move m a)

abbrev pub in_session : AdmissionState → Bool
in_session state = in_ready state || in_resuming state

-- Capabilities and a Session id stand only where a Session is open, and a handshake only before one is.
pub record IsSound (a : ServerAdmission) : Type 0 where
  pub bare : in_session a.state ≡ false → a.capabilities ≡ no_capabilities
  pub named : in_session a.state ≡ true → is_empty a.session_id ≡ false
  pub unnamed : in_awaiting a.state ≡ true → a.session_id ≡ []
  pub shaking : a.handshake ≡ true → in_awaiting a.state ≡ true

enter-cases :
    (a : ServerAdmission) (generation : ℕ) (valid : Bool) (frame : Envelope)
    → ((enter a generation valid frame).0 ≡ a)
      ⊎ ((enter a generation valid frame).0 ≡ shut a)
      ⊎ ((enter a generation valid frame).0 ≡ admit a frame.type)
unfolding enter
enter-cases a generation valid frame = ground arith

admit-IsSound : (a : ServerAdmission) (type : FrameType) → IsSound a → IsSound (admit a type)
unfolding admit
admit-IsSound a type h = record {
  bare = (let h1 = h.bare in ground arith);
  named = (let h1 = h.named in ground arith);
  unnamed = (let h1 = h.unnamed in ground arith);
  shaking = (let h1 = h.shaking in ground arith);
}

shut-IsSound : (a : ServerAdmission) → IsSound (shut a)
shut-IsSound a = record {
  bare = λ e. refl;
  named = λ e. ground arith;
  unnamed = λ e. ground arith;
  shaking = λ e. ground arith;
}

enter-IsSound :
    (a : ServerAdmission) (generation : ℕ) (valid : Bool) (frame : Envelope)
    → IsSound a
    → IsSound (enter a generation valid frame).0
enter-IsSound a generation valid frame h = elim (enter-cases a generation valid frame) [
  | inl same ↦ subst IsSound (sym same) h
  | inr (inl off) ↦ subst IsSound (sym off) (shut-IsSound a)
  | inr (inr on) ↦ subst IsSound (sym on) (admit-IsSound a frame.type h)
]

apply_result-IsSound :
    (a : ServerAdmission) (generation : ℕ) (result : HandleResult)
    → IsSound a
    → IsSound (apply_result a generation result)
unfolding apply_result
apply_result-IsSound a generation result h = record {
  bare = (let h1 = h.bare in ground arith);
  named = (let h1 = h.named in ground arith);
  unnamed = (let h1 = h.unnamed in ground arith);
  shaking = (let h1 = h.shaking in ground arith);
}

move-IsSound : (m : Move) (a : ServerAdmission) → IsSound a → IsSound (move m a)
unfolding replace
move-IsSound replaces a h = record {
  bare = λ e. refl;
  named = λ e. ground arith;
  unnamed = λ e. refl;
  shaking = λ e. refl;
}
move-IsSound (enters generation valid frame) a h = enter-IsSound a generation valid frame h
move-IsSound (finishes generation result) a h = apply_result-IsSound a generation result h

moves-keep_IsSound : (ms : List Move) (a : ServerAdmission) → IsSound a → IsSound (moves ms a)
unfolding moves
moves-keep_IsSound [] a h = h
moves-keep_IsSound (m ∷ ms) a h = moves-keep_IsSound ms (move m a) (move-IsSound m a h)

-- However the critical sections of concurrent calls interleave with replacements, from the new gate on: it has
-- capabilities only in READY or RESUMING, has a Session id there and none in AWAITING_HANDSHAKE, and marks a
-- handshake only in AWAITING_HANDSHAKE.
pub moves-IsSound : (ms : List Move) → IsSound (moves ms new_server_admission)
moves-IsSound ms = moves-keep_IsSound ms new_server_admission record {
  bare = λ e. refl;
  named = λ e. ground arith;
  unnamed = λ e. refl;
  shaking = λ e. ground arith;
}

-- Moves of connections that a generation has taken the place of.
abbrev pub is_stale : ℕ → Move → Bool
is_stale generation replaces = false
is_stale generation (enters g valid frame) = not (nat_beq g generation)
is_stale generation (finishes g result) = not (nat_beq g generation)

abbrev pub all_stale : ℕ → List Move → Bool
all_stale generation [] = true
all_stale generation (m ∷ ms) = is_stale generation m && all_stale generation ms

stale_unchanged : (m : Move) (a : ServerAdmission) → is_stale a.generation m ≡ true → move m a ≡ a
unfolding enter apply_result
stale_unchanged replaces a e = ground arith
stale_unchanged (enters g valid frame) a e = ground arith
stale_unchanged (finishes g result) a e = ground arith

moves-generation :
    (ms : List Move) (a : ServerAdmission) → all_stale a.generation ms ≡ true → moves ms a ≡ a
unfolding moves
moves-generation [] a e = refl
moves-generation (m ∷ ms) a e =
    let same = stale_unchanged m a (ground arith) in
    let rest = moves-generation ms a (ground arith) in ap (moves ms) same ∙ rest

enter-stale :
    (a : ServerAdmission) (generation : ℕ) (valid : Bool) (frame : Envelope)
    → generation ≢ a.generation
    → enter a generation valid frame ≡ (a, rejected stale_connection)
unfolding enter
enter-stale a generation valid frame other = ground arith

-- After a replacement, whatever calls of other generations still do, their frames and their results alike: the
-- gate stays as the replacement left it, and the next frame of such a generation is refused as stale.
pub replace-fences :
    (a : ServerAdmission) (ms : List Move) (generation : ℕ) (valid : Bool) (frame : Envelope)
    → all_stale (replace a none).0.generation ms ≡ true
    → generation ≢ (replace a none).0.generation
    → (moves (replaces ∷ ms) a ≡ (replace a none).0)
      × (enter (moves (replaces ∷ ms) a) generation valid frame
          ≡ ((replace a none).0, rejected stale_connection))
unfolding moves
replace-fences a ms generation valid frame stale other =
    let same = moves-generation ms (replace a none).0 stale in
    (
      same,
      ap (λ g. enter g generation valid frame) same
          ∙ enter-stale (replace a none).0 generation valid frame other,
    )
