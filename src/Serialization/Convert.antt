-- ===== src/Serialization/Convert.antt =====
-- `convertToUTF8` of sdk/serialization.cc.
use iggy_cpp_client.Prelude.{
  ◌≡◌, refl, ◌⊎◌, inl, inr, Bool, true, false, [], ◌∷◌, ◌++◌, arith, ◌==◌, if◌then◌else◌,
  Bool-cases,
}
use iggy_cpp_client.Prelude.Bytes.{Bytes, NoNul, c_str, c_str-NoNul}
use iggy_cpp_client.Prelude.Errors.{Result, ok, err, invalid_argument, about}
use iggy_cpp_client.Serialization.Utf8.{Utf8, IsUtf8}

-- `snprintf` with "%s" copies the C string, whole, since the buffer is as long as the source.
unfoldable pub convert_to_utf8 : Utf8 → Bytes → Bool → Result Bytes
unfolding c_str
convert_to_utf8 u source strict =
    if u.valid (c_str source)
    then ok source
    else if strict
    then err (invalid_argument (about "The input string is not a valid UTF-8 string: '{}'" source))
    else ok (c_str (u.make_valid (c_str source) b'?'))

NoNul-c_str : (s : Bytes) → NoNul (c_str s)
unfolding c_str
NoNul-c_str [] = tt
NoNul-c_str (c ∷ s) = elim (Bool-cases (c == 0)) [
  | inl nul ↦ rw nul (tt)
  | inr more ↦ rw more ((λ e. ground arith), NoNul-c_str s)
]

c_str-append_nul : (s t : Bytes) → c_str (s ++ 0 ∷ t) ≡ c_str s
unfolding c_str
c_str-append_nul [] t = refl
c_str-append_nul (c ∷ s) t = ground (arith, c_str-append_nul s t)

-- For a text with no byte 0, where utf8h does as it documents: it comes back unchanged if it is
-- valid; if not, the strict conversion throws, and the other gives a valid text with no byte 0.
pub convert_to_utf8_outcome :
    (u : Utf8) (s : Bytes)
    → IsUtf8 u
    → NoNul s
    → ((u.valid s ≡ true) × (convert_to_utf8 u s true ≡ ok s) × (convert_to_utf8 u s false ≡ ok s))
      ⊎ ((u.valid s ≡ false)
          × (convert_to_utf8 u s true
              ≡ err
                  (invalid_argument (about "The input string is not a valid UTF-8 string: '{}'" s)))
          × ((t : Bytes) × (convert_to_utf8 u s false ≡ ok t) × (u.valid t ≡ true) × NoNul t))
unfolding convert_to_utf8
convert_to_utf8_outcome u s law h = elim (Bool-cases (u.valid s)) [
  | inl good ↦ inl (good, rw (c_str-NoNul s h, good), rw (c_str-NoNul s h, good))
  | inr bad ↦
      let fixed = u.make_valid s b'?' in
      let clean = law.made_no_nul s b'?' (omega arith) (omega arith) h in
      inr (
        bad,
        rw (c_str-NoNul s h, bad),
        (
          fixed,
          rw (c_str-NoNul s h, bad, c_str-NoNul fixed clean),
          law.made_valid s b'?' (omega arith) (omega arith) h,
          clean,
        ),
      )
]

-- Where utf8h does as it documents, the conversion that is not strict never throws, and converting
-- its result again, strictly or not, gives it back.
pub convert_to_utf8_idem :
    (u : Utf8) (s : Bytes) (strict : Bool)
    → IsUtf8 u
    → (t : Bytes) × (convert_to_utf8 u s false ≡ ok t) × (convert_to_utf8 u t strict ≡ ok t)
unfolding convert_to_utf8
convert_to_utf8_idem u s strict law = elim (Bool-cases (u.valid (c_str s))) [
  | inl good ↦ (s, rw good, rw good)
  | inr bad ↦
      let fixed = u.make_valid (c_str s) b'?' in
      let clean = law.made_no_nul (c_str s) b'?' (omega arith) (omega arith) (NoNul-c_str s) in
      let valid = law.made_valid (c_str s) b'?' (omega arith) (omega arith) (NoNul-c_str s) in
      (fixed, rw (bad, c_str-NoNul fixed clean), rw (c_str-NoNul fixed clean, valid))
]

-- Only what stands before the first byte 0 is looked at: a valid text followed by a byte 0 and
-- anything else passes the strict conversion as it is.
pub convert_to_utf8_ignores_tail :
    (u : Utf8) (s t : Bytes)
    → NoNul s
    → u.valid s ≡ true
    → convert_to_utf8 u (s ++ 0 ∷ t) true ≡ ok (s ++ 0 ∷ t)
unfolding convert_to_utf8
convert_to_utf8_ignores_tail u s t h good = rw (c_str-append_nul s t, c_str-NoNul s h, good)
