-- ===== src/Serialization/Utf8.antt =====
-- The library utf8h, which sdk/serialization.cc calls: a parameter of the model. Both functions
-- read a C string, so they see no byte 0.
use iggy_cpp_client.Prelude.{ℕ, ◌<◌, ◌≡◌, ◌≢◌, Bool, true}
use iggy_cpp_client.Prelude.Bytes.{Bytes, NoNul}

pub record Utf8 : Type 0 where
  -- `utf8valid(s) == 0`
  pub valid : Bytes → Bool
  -- The text that `utf8makevalid` leaves, given the replacement.
  pub make_valid : Bytes → ℕ → Bytes

-- What the library documents: the replacement is one byte below 128; making a text valid makes it
-- valid, and adds no byte 0 if the replacement is none.
pub record IsUtf8 (u : Utf8) : Type 0 where
  pub made_valid :
      (s : Bytes) (r : ℕ) → r ≢ 0 → r < 128 → NoNul s → u.valid (u.make_valid s r) ≡ true
  pub made_no_nul : (s : Bytes) (r : ℕ) → r ≢ 0 → r < 128 → NoNul s → NoNul (u.make_valid s r)
