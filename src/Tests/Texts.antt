-- ===== src/Tests/Texts.antt =====
-- Runs of sdk/serialization.cc, sdk/client.h, sdk/client.cc and sdk/model.h.
use iggy_cpp_client.Prelude.{
  ◌≡◌, refl, ◌≢◌, ◌↔◌, ◌⊎◌, inl, inr, Bool, true, false, ◌&&◌, none, some, [], ◌∷◌, ◌++◌, arith,
  ltb, if◌then◌else◌, drop, Bool-cases,
}
use iggy_cpp_client.Prelude.Bytes.{NoNul, Bytes, codes}
use iggy_cpp_client.Prelude.Errors.{ok, err, invalid_argument, about}
use iggy_cpp_client.Serialization.Utf8.{Utf8, IsUtf8}
use iggy_cpp_client.Serialization.Convert.{
  convert_to_utf8, convert_to_utf8_outcome, convert_to_utf8_idem, convert_to_utf8_ignores_tail,
}
use iggy_cpp_client.Client.{
  Memzero, zeros, IsZeroing, Credentials, destroy, destroy_wipes, new_client, default_options,
  no_hostname, new_client_outcome,
}
use iggy_cpp_client.Model.Message.{
  full_message, simple_message, available, is_complete, message_completeness,
}

-- A stand-in for utf8h on ASCII texts: an invalid byte gives way to a question mark.
is_ascii : Bytes → Bool
is_ascii [] = true
is_ascii (c ∷ s) = ltb c 128 && is_ascii s

to_ascii : Bytes → Bytes
to_ascii [] = []
to_ascii (c ∷ s) = let rest = to_ascii s in if ltb c 128 then c ∷ rest else b'?' ∷ rest

abbrev test_utf8 : Utf8
test_utf8 = record { valid = is_ascii; make_valid = λ s r. to_ascii s }

is_ascii-to_ascii : (s : Bytes) → is_ascii (to_ascii s) ≡ true
unfolding is_ascii to_ascii
is_ascii-to_ascii [] = refl
is_ascii-to_ascii (c ∷ s) = ground (arith, is_ascii-to_ascii s)

to_ascii-NoNul : (s : Bytes) → NoNul s → NoNul (to_ascii s)
unfolding to_ascii
to_ascii-NoNul [] h = tt
to_ascii-NoNul (c ∷ s) h = elim (Bool-cases (ltb c 128)) [
  | inl low ↦ rw low (h.0, to_ascii-NoNul s h.1)
  | inr high ↦ rw high ((λ e. omega arith), to_ascii-NoNul s h.1)
]

test_law : IsUtf8 test_utf8
test_law = record {
  made_valid = λ s r nz low h. is_ascii-to_ascii s;
  made_no_nul = λ s r nz low h. to_ascii-NoNul s h;
}

abbrev bad_text : Bytes
bad_text = b'a' ∷ 200 ∷ []

bad_text-NoNul : NoNul bad_text
bad_text-NoNul = ((λ e. cc), ((λ e. cc), tt))

convert_to_utf8_outcome_example :
    ((test_utf8.valid bad_text ≡ true)
      × (convert_to_utf8 test_utf8 bad_text true ≡ ok bad_text)
      × (convert_to_utf8 test_utf8 bad_text false ≡ ok bad_text))
    ⊎ ((test_utf8.valid bad_text ≡ false)
        × (convert_to_utf8 test_utf8 bad_text true
            ≡ err (
                invalid_argument
                  (about "The input string is not a valid UTF-8 string: '{}'" bad_text)))
        × ((t : Bytes) × (convert_to_utf8 test_utf8 bad_text false ≡ ok t)
            × (test_utf8.valid t ≡ true)
            × NoNul t))
convert_to_utf8_outcome_example = convert_to_utf8_outcome test_utf8 bad_text test_law bad_text-NoNul

convert_to_utf8_idem_example :
    (t : Bytes) × (convert_to_utf8 test_utf8 bad_text false ≡ ok t)
    × (convert_to_utf8 test_utf8 t true ≡ ok t)
convert_to_utf8_idem_example = convert_to_utf8_idem test_utf8 bad_text true test_law

valid_run : is_ascii (codes "a") ≡ true
unfolding is_ascii
valid_run = refl

convert_to_utf8_ignores_tail_example :
    convert_to_utf8 test_utf8 (codes "a" ++ 0 ∷ 200 ∷ []) true ≡ ok (codes "a" ++ 0 ∷ 200 ∷ [])
convert_to_utf8_ignores_tail_example =
    convert_to_utf8_ignores_tail test_utf8 (codes "a") (200 ∷ []) ((λ e. cc), tt) valid_run

test_memzero : Memzero
test_memzero b n = zeros n ++ drop n b

test-IsZeroing : IsZeroing test_memzero
unfolding test_memzero
test-IsZeroing b n h = refl

abbrev test_credentials : Credentials
test_credentials = record { username = codes "u"; password = codes "pw" }

destroy_wipes_example :
    ((destroy test_memzero test_credentials).password ≡ 0 ∷ 0 ∷ [])
    × ((destroy test_memzero test_credentials).username ≡ codes "u")
destroy_wipes_example = destroy_wipes test_memzero test-IsZeroing test_credentials

new_client_outcome_example :
    ((new_client default_options ≡ ok tt) ↔ (default_options.hostname ≢ []))
    × ((new_client default_options ≡ err no_hostname) ↔ (default_options.hostname ≡ []))
    × (new_client default_options ≡ ok tt)
new_client_outcome_example = new_client_outcome default_options

message_completeness_example :
    ((is_complete (full_message 1 [] 2 (codes "hi") (some 3) (some available) (some 4) none) ≡ true)
      ↔ ((true ≡ true) × (true ≡ true) × (true ≡ true) × (false ≡ true)))
    × (is_complete (simple_message 1 [] 2 (codes "hi")) ≡ false)
message_completeness_example =
    message_completeness 1 [] 2 (codes "hi") (some 3) (some available) (some 4) none
