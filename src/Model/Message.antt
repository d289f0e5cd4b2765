-- ===== src/Model/Message.antt =====
-- Messages of sdk/model.h (namespace message). The map of headers is an association list: the
-- code copies it and returns it.
use iggy_cpp_client.Prelude.{
  ℕ, ◌≡◌, refl, ◌↔◌, Bool, true, false, ◌&&◌, Option, none, List, has_value, arith,
}
use iggy_cpp_client.Prelude.Bytes.{Bytes}

pub data MessageState : Type 0 where
  available unavailable poisoned marked_for_deletion : MessageState

unfoldable pub state_code : MessageState → ℕ
state_code available = 1
state_code unavailable = 10
state_code poisoned = 20
state_code marked_for_deletion = 30

pub data HeaderKind : Type 0 where
  raw string bool : HeaderKind
  int8 int16 int32 int64 int128 : HeaderKind
  uint8 uint16 uint32 uint64 uint128 : HeaderKind
  float32 float64 : HeaderKind

unfoldable pub header_code : HeaderKind → ℕ
header_code raw = 1
header_code string = 2
header_code bool = 3
header_code int8 = 4
header_code int16 = 5
header_code int32 = 6
header_code int64 = 7
header_code int128 = 8
header_code uint8 = 9
header_code uint16 = 10
header_code uint32 = 11
header_code uint64 = 12
header_code uint128 = 13
header_code float32 = 14
header_code float64 = 15

pub record HeaderValue : Type 0 where
  pub kind : HeaderKind
  pub value : Bytes

pub record Message : Type 0 where
  pub id : ℕ
  pub headers : List (Bytes × HeaderValue)
  pub length : ℕ
  pub payload : Bytes
  pub offset : Option ℕ
  pub state : Option MessageState
  pub timestamp : Option ℕ
  pub checksum : Option ℕ

-- The fully qualified constructor.
unfoldable pub full_message :
    ℕ
    → List (Bytes × HeaderValue)
    → ℕ
    → Bytes
    → Option ℕ
    → Option MessageState
    → Option ℕ
    → Option ℕ
    → Message
full_message i hs n p o s t c = record {
  id = i;
  headers = hs;
  length = n;
  payload = p;
  offset = o;
  state = s;
  timestamp = t;
  checksum = c;
}

-- The simpler constructor, which delegates to the full one.
unfoldable pub simple_message : ℕ → List (Bytes × HeaderValue) → ℕ → Bytes → Message
simple_message i hs n p = full_message i hs n p none none none none

unfoldable pub is_complete : Message → Bool
is_complete m =
    has_value m.offset && has_value m.state && has_value m.timestamp && has_value m.checksum

pub record PolledMessages : Type 0 where
  pub partition_id : ℕ
  pub current_offset : ℕ
  pub messages : List Message

-- A message of the full constructor is complete exactly when each of its four optional arguments
-- has a value, and a message of the simple constructor never is.
pub message_completeness :
    (i : ℕ) (hs : List (Bytes × HeaderValue)) (n : ℕ) (p : Bytes) (o : Option ℕ)
    (s : Option MessageState) (t c : Option ℕ)
    → ((is_complete (full_message i hs n p o s t c) ≡ true) ↔ (
        (has_value o ≡ true) × (has_value s ≡ true) × (has_value t ≡ true) × (has_value c ≡ true)))
      × (is_complete (simple_message i hs n p) ≡ false)
unfolding is_complete full_message simple_message
message_completeness i hs n p o s t c = (ground arith, refl)
