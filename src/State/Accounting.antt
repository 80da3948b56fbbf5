-- ===== src/State/Accounting.antt =====
-- The snapshot accumulator: its running count of bytes is exact.
use kmtproto.Prelude.{
  ℕ, ◌+◌, ◌-◌, ℤ, pos, ◌≤ℤ◌, ◌+ℤ◌, ◌-ℤ◌, ltb_ℤ, leb_ℤ, +ℤ_parts, -ℤ_parts, ◌≡◌, refl, sym, ap, ◌∙◌,
  subst, false, Text, List, [], ◌∷◌, ◌++◌, length, length-append, is_empty, arith, if◌then◌else◌,
}
use mathlib.Core.List.{append-nil, append_assoc}
use kmtproto.Wire.{StateObject, Limits, Json, fails, gives, Result, ok, err, ◌>>=◌}
use kmtproto.State.Snapshot.{
  StateSnapshotLimits, SnapshotAccumulator, new_accumulator, add_object, add_objects,
  snapshot_payload,
}

-- A chain that succeeds has succeeded in both parts.
pub parts_of :
    {A B : Type 0} (r : Result A) (next : A → Result B) (b : B)
    → (r >>= next) ≡ ok b
    → (a : A) × (r ≡ ok a) × (next a ≡ ok b)
parts_of (ok a) next b e = (a, refl, e)
parts_of (err x) next b e = ground arith

module _ (json : Json) where
  -- The bytes of one object, and of several without commas.
  abbrev pub object_bytes : StateObject → ℕ
  object_bytes o = elim (json.encode_object o) [ fails t ↦ 0 | gives encoded ↦ length encoded ]

  abbrev pub objects_bytes : List StateObject → ℕ
  objects_bytes [] = 0
  objects_bytes (o ∷ rest) = object_bytes o + objects_bytes rest

  -- `{"states":[…]}` with a comma between two objects.
  abbrev pub payload_bytes : List StateObject → ℕ
  payload_bytes states = 13 + objects_bytes states + (length states - 1)

  objects_bytes-append :
      (xs ys : List StateObject) → objects_bytes (xs ++ ys) ≡ objects_bytes xs + objects_bytes ys
  objects_bytes-append [] ys = omega arith
  objects_bytes-append (x ∷ xs) ys = omega (arith, objects_bytes-append xs ys)

  pub record IsCounted (a : SnapshotAccumulator) (states : List StateObject) : Type 0 where
    pub holds : a.states ≡ states
    pub exact : a.encoded_bytes ≡ pos (payload_bytes states)
    pub within : pos (payload_bytes states) ≤ℤ a.snapshot_limits.max_bytes
    pub counted : pos (length states) ≤ℤ a.snapshot_limits.max_objects

  -- What an addition that succeeds has checked.
  add_object-adds :
      (a b : SnapshotAccumulator) (object : StateObject)
      → add_object json a object ≡ ok b
      → (leb_ℤ a.snapshot_limits.max_objects (pos (length a.states)) ≡ false)
        × (ltb_ℤ
              (a.snapshot_limits.max_bytes -ℤ a.encoded_bytes)
              (pos (object_bytes object) +ℤ (if is_empty a.states then pos 0 else pos 1))
            ≡ false)
        × (b ≡ record a {
          encoded_bytes =
              a.encoded_bytes
              +ℤ (pos (object_bytes object) +ℤ (if is_empty a.states then pos 0 else pos 1));
          states = a.states ++ object ∷ [];
        })
  unfolding add_object
  add_object-adds a b object e = ground arith

  abbrev object_cost : List StateObject → StateObject → ℤ
  object_cost states object =
      pos (object_bytes object) +ℤ (if is_empty states then pos 0 else pos 1)

  payload_bytes-append :
      (states : List StateObject) (object : StateObject)
      → pos (payload_bytes states) +ℤ object_cost states object
        ≡ pos (payload_bytes (states ++ object ∷ []))
  unfolding ◌+ℤ◌
  payload_bytes-append [] object = ground arith
  payload_bytes-append (x ∷ xs) object =
      ground (arith, objects_bytes-append xs (object ∷ []), length-append xs (object ∷ []))

  room_left : (max used cost : ℤ) → ltb_ℤ (max -ℤ used) cost ≡ false → used +ℤ cost ≤ℤ max
  room_left max used cost e = ground (arith, -ℤ_parts max used, +ℤ_parts used cost)

  add_object-IsCounted :
      (a b : SnapshotAccumulator) (states : List StateObject) (object : StateObject)
      → IsCounted a states
      → add_object json a object ≡ ok b
      → IsCounted b (states ++ object ∷ []) × (b.snapshot_limits ≡ a.snapshot_limits)
  add_object-IsCounted a b states object c e =
      let (room, fits, same) = add_object-adds a b object e in
      let bounds = ap (λ x. x.snapshot_limits) same in
      let total =
        ap (λ u. u +ℤ object_cost states object) c.exact ∙ payload_bytes-append states object in
      let spent : ltb_ℤ (a.snapshot_limits.max_bytes -ℤ a.encoded_bytes) (object_cost states object)
          ≡ false =
        subst
          (λ l.
            ltb_ℤ (a.snapshot_limits.max_bytes -ℤ a.encoded_bytes) (object_cost l object) ≡ false)
          c.holds fits in
      let below =
        room_left a.snapshot_limits.max_bytes a.encoded_bytes (object_cost states object) spent in
      (
        record {
          holds = ap (λ x. x.states) same ∙ ap (λ l. l ++ object ∷ []) c.holds;
          exact =
              ap (λ x. x.encoded_bytes) same
              ∙ ap (λ l. a.encoded_bytes +ℤ object_cost l object) c.holds
              ∙ total;
          within =
              subst (λ l. pos (payload_bytes (states ++ object ∷ [])) ≤ℤ l.max_bytes) (sym bounds)
                (subst (λ u. u ≤ℤ a.snapshot_limits.max_bytes) total below);
          counted =
              subst (λ l. pos (length (states ++ object ∷ [])) ≤ℤ l.max_objects) (sym bounds)
                (let n = ap length c.holds in
                  ground (arith, room, n, length-append states (object ∷ [])));
        },
        bounds,
      )

  -- The objects are appended one by one.
  pub add_objects-IsCounted :
      (a b : SnapshotAccumulator) (states objects : List StateObject)
      → IsCounted a states
      → add_objects json a objects ≡ ok b
      → IsCounted b (states ++ objects) × (b.snapshot_limits ≡ a.snapshot_limits)
  unfolding add_objects
  add_objects-IsCounted a b states [] c e =
      let same : a ≡ b = ground arith in
      (
        subst (λ l. IsCounted b l) (sym (append-nil states))
            (subst (λ x. IsCounted x states) same c),
        ap (λ x. x.snapshot_limits) (sym same),
      )
  add_objects-IsCounted a b states (o ∷ rest) c e =
      let (next, added, more) =
        parts_of (add_object json a o) (λ a'. add_objects json a' rest) b e in
      let (c', bounds) = add_object-IsCounted a next states o c added in
      let (full, bounds') = add_objects-IsCounted next b (states ++ o ∷ []) rest c' more in
      (subst (λ l. IsCounted b l) (append_assoc states (o ∷ []) rest) full, bounds' ∙ bounds)

  pub new_accumulator-IsCounted :
      (limits : Limits) (bounds : StateSnapshotLimits) (a : SnapshotAccumulator)
      → new_accumulator limits bounds ≡ ok a
      → IsCounted a [] × (a.snapshot_limits ≡ bounds)
  unfolding new_accumulator
  new_accumulator-IsCounted limits bounds a e =
      let states : a.states ≡ [] = ground arith in
      let bytes : a.encoded_bytes ≡ pos 13 = ground arith in
      let own : a.snapshot_limits ≡ bounds = ground arith in
      let room : pos 13 ≤ℤ bounds.max_bytes = ground arith in
      let some_room : pos 0 ≤ℤ bounds.max_objects = ground arith in
      (
        record {
          holds = states;
          exact = bytes;
          within = subst (λ l. pos 13 ≤ℤ l.max_bytes) (sym own) room;
          counted = subst (λ l. pos 0 ≤ℤ l.max_objects) (sym own) some_room;
        },
        own,
      )

-- A snapshot whose objects the accumulator took fits: no more objects than allowed, and the count of bytes that
-- it kept while they came is that of the whole payload, so where encoding/json puts nothing but the brackets and
-- the commas around the encoded objects, the check on the finished payload cannot fail.
pub snapshot_payload-fits :
    (json : Json) (limits : Limits) (bounds : StateSnapshotLimits) (a full : SnapshotAccumulator)
    (objects : List StateObject) (payload : Text)
    → new_accumulator limits bounds ≡ ok a
    → add_objects json a objects ≡ ok full
    → json.encode_snapshot objects ≡ gives payload
    → length payload ≡ payload_bytes json objects
    → (snapshot_payload json full ≡ ok payload)
      × (full.encoded_bytes ≡ pos (length payload))
      × (pos (length payload) ≤ℤ bounds.max_bytes)
      × (pos (length objects) ≤ℤ bounds.max_objects)
unfolding snapshot_payload
snapshot_payload-fits json limits bounds a full objects payload started added encoded size =
    let (begun, own) = new_accumulator-IsCounted json limits bounds a started in
    let (c, same) = add_objects-IsCounted json a full [] objects begun added in
    let limit = same ∙ own in
    let below = subst (λ l. pos (payload_bytes json objects) ≤ℤ l.max_bytes) limit c.within in
    let few = subst (λ l. pos (length objects) ≤ℤ l.max_objects) limit c.counted in
    let listed = ap json.encode_snapshot c.holds ∙ encoded in
    let top = c.within in
    (
      ground (arith, listed, top, size),
      c.exact ∙ ap pos (sym size),
      ground (arith, below, size),
      few,
    )
