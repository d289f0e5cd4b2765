-- ===== src/Address/Decimal.antt =====
-- The decimal form of a number, as a URL shows its port, and its way back through `std::stoi`.
use iggy_cpp_client.Prelude.{
  ℕ, zero, suc, ◌+◌, ◌/◌, ◌<◌, ◌^◌, ◌%◌, ◌≡◌, refl, ◌≢◌, true, [], ◌∷◌, ◌++◌, arith, ltb,
  if◌then◌else◌, All-append, Bool-cases, ◌∙◌, ap, inl, inr,
}
use iggy_cpp_client.Prelude.Bytes.{Bytes}
use iggy_cpp_client.Prelude.Errors.{ok}
use iggy_cpp_client.Address.Stoi.{
  pos, is_digit, value, IsDigits, stoi, stoi-digits, value-snoc, value-nil,
}

-- Each round writes one digit, so `suc n` rounds are enough.
rounds : ℕ → ℕ → Bytes
rounds zero n = []
rounds (suc f) n =
    let rest = rounds f (n / 10) in
    if ltb n 10 then (b'0' + n) ∷ [] else rest ++ (b'0' + n % 10) ∷ []

unfoldable pub decimal : ℕ → Bytes
unfolding rounds
decimal n = rounds (suc n) n

value-rounds : (f n : ℕ) → n < f → value (rounds f n) ≡ n
unfolding rounds
value-rounds zero n h = absurd (omega arith)
value-rounds (suc f) n h = elim (Bool-cases (ltb n 10)) [
  | inl one ↦ rw one (omega (arith, value-snoc [] (b'0' + n), value-nil))
  | inr more ↦
      rw more
        (ground (arith, value-snoc (rounds f (n / 10)) (b'0' + n % 10), value-rounds f (n / 10)))
]

digit-is_digit : (d : ℕ) → d < 10 → is_digit (b'0' + d) ≡ true
unfolding is_digit
digit-is_digit d h = ground arith

rounds-IsDigits : (f n : ℕ) → IsDigits (rounds f n)
unfolding rounds
rounds-IsDigits zero n = tt
rounds-IsDigits (suc f) n = elim (Bool-cases (ltb n 10)) [
  | inl one ↦ rw one (digit-is_digit n (ground arith), tt)
  | inr more ↦ rw more (
      All-append _ (rounds f (n / 10)) _ (rounds-IsDigits f (n / 10))
        (digit-is_digit (n % 10) (omega arith), tt))
]

snoc-ne-nil : (s : Bytes) (c : ℕ) → s ++ c ∷ [] ≢ []
snoc-ne-nil [] c h = cc
snoc-ne-nil (x ∷ s) c h = cc

pub decimal-ne-nil : (n : ℕ) → decimal n ≢ []
unfolding decimal
decimal-ne-nil n = elim (Bool-cases (ltb n 10)) [
  | inl one ↦ rw one (λ h. cc)
  | inr more ↦ rw more (snoc-ne-nil (rounds n (n / 10)) _)
]

stoi-of : (s : Bytes) → s ≢ [] → IsDigits s → value s < 2 ^ 31 → stoi s ≡ ok (pos (value s))
stoi-of [] ne h small = absurd (ne refl)
stoi-of (c ∷ s) ne h small = stoi-digits c s h small

-- `std::stoi` reads the decimal form of every number that an `int` can hold back as that number.
pub stoi-decimal : (n : ℕ) → n < 2 ^ 31 → stoi (decimal n) ≡ ok (pos n)
unfolding decimal
stoi-decimal n h =
    let same : value (decimal n) ≡ n = value-rounds (suc n) n (omega arith) in
    stoi-of (decimal n) (decimal-ne-nil n) (rounds-IsDigits (suc n) n) (omega arith)
    ∙ ap (λ v. ok (pos v)) same
