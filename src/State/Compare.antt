-- ===== src/State/Compare.antt =====
-- state.go: equalStateJSONValue, decodeStateData, equalStateData.
use kmtproto.Prelude.{
  ℕ, suc, Bool, true, false, ◌&&◌, Text, ◌++◌, Option, none, some, nat_beq, lit, text_eq,
  if◌then◌else◌,
}
use kmtproto.Wire.{
  Json, JsonValue, null, bool, string, number, array, object, Items, nil, cons, Members, end,
  member, fails, gives, Result, ok, err, bad_request, new_protocol_error, ◌>>=◌,
}
use kmtproto.State.Numbers.{normalize_number, same_number}

count_items : Items → ℕ
count_items nil = 0
count_items (cons v items) = suc (count_items items)

count_members : Members → ℕ
count_members end = 0
count_members (member k v rest) = suc (count_members rest)

member_value : Text → Members → Option JsonValue
member_value key end = none
member_value key (member k v rest) = if text_eq k key then some v else member_value key rest

equal_numbers : Text → Text → Bool
equal_numbers a b = elim (normalize_number a) [
  | none ↦ false
  | some x ↦ elim (normalize_number b) [ none ↦ false | some y ↦ same_number x y ]
]

equal_bools : Bool → Bool → Bool
equal_bools true b = b
equal_bools false true = false
equal_bools false false = true

unfoldable mutual
  unfolding count_items count_members member_value equal_numbers equal_bools

  pub equal_json : JsonValue → JsonValue → Bool
  equal_json null null = true
  equal_json (bool a) (bool b) = equal_bools a b
  equal_json (string a) (string b) = text_eq a b
  equal_json (number a) (number b) = equal_numbers a b
  equal_json (array xs) (array ys) = nat_beq (count_items xs) (count_items ys) && equal_items xs ys
  equal_json (object xs) (object ys) =
      nat_beq (count_members xs) (count_members ys) && equal_members xs ys
  equal_json _ _ = false

  -- Index by index; the lengths are equal.
  pub equal_items : Items → Items → Bool
  equal_items nil ys = true
  equal_items (cons x xs) nil = false
  equal_items (cons x xs) (cons y ys) = equal_json x y && equal_items xs ys

  -- Key by key, in any order.
  pub equal_members : Members → Members → Bool
  equal_members end ys = true
  equal_members (member key x xs) ys = elim (member_value key ys) [
    | none ↦ false
    | some y ↦ equal_json x y && equal_members xs ys
  ]

module _ (json : Json) where
  unfoldable pub decode_state_data : Text → Result JsonValue
  decode_state_data raw = elim (json.value raw) [
    | fails message ↦ err (new_protocol_error bad_request (lit "invalid state data: " ++ message))
    | gives (v, none) ↦ ok v
    | gives (v, some message) ↦
        err (new_protocol_error bad_request (lit "invalid state data: " ++ message))
  ]

  unfoldable pub equal_state_data : Text → Text → Result Bool
  unfolding decode_state_data
  equal_state_data left right = do
    a ← decode_state_data left
    b ← decode_state_data right
    ok (equal_json a b)
