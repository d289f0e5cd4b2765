-- ===== src/Address/Stoi.antt =====
-- `std::stoi` in base ten, as sdk/net/address.cc calls it, with `int` of 32 bits.
use mathlib.Core.List.{foldl-append}
use iggy_cpp_client.Prelude.{
  ℕ, zero, suc, ◌+◌, ◌-◌, ◌*◌, ◌<◌, ◌^◌, ◌≡◌, refl, Bool, true, false, ◌&&◌, ◌||◌, [], ◌∷◌, ◌++◌,
  foldl, arith, ltb, leb, ◌==◌, if◌then◌else◌, All,
}
use iggy_cpp_client.Prelude.Bytes.{Bytes}
use iggy_cpp_client.Prelude.Errors.{Result, ok, err, invalid_argument, out_of_range, plain}

-- `negsuc n` is -(n + 1).
pub data ℤ : Type 0 where
  pos : ℕ → ℤ
  negsuc : ℕ → ℤ

is_space : ℕ → Bool
is_space c = c == b' ' || (leb 9 c && leb c 13)

unfoldable pub is_digit : ℕ → Bool
is_digit c = leb b'0' c && leb c b'9'

skip_space : Bytes → Bytes
unfolding is_space
skip_space [] = []
skip_space (c ∷ s) = let rest = skip_space s in if is_space c then rest else c ∷ s

abbrev Sign : Type 0
Sign = Bool × Bytes

-- An optional sign; true stands for a minus.
sign : Bytes → Sign
sign [] = (false, [])
sign (c ∷ s) = if c == b'-' then (true, s) else if c == b'+' then (false, s) else (false, c ∷ s)

pub digit_prefix : Bytes → Bytes
unfolding is_digit
digit_prefix [] = []
digit_prefix (c ∷ s) = let rest = digit_prefix s in if is_digit c then c ∷ rest else []

abbrev push_digit : ℕ → ℕ → ℕ
push_digit n c = n * 10 + (c - b'0')

unfoldable pub value : Bytes → ℕ
value = foldl push_digit 0

-- -n
abbrev neg : ℕ → ℤ
neg zero = pos zero
neg (suc n) = negsuc n

in_range : Bool → ℕ → Result ℤ
in_range true n = if leb n (2 ^ 31) then ok (neg n) else err (out_of_range (plain "stoi"))
in_range false n = if ltb n (2 ^ 31) then ok (pos n) else err (out_of_range (plain "stoi"))

convert : Bool → Bytes → Result ℤ
unfolding in_range value
convert minus [] = err (invalid_argument (plain "stoi"))
convert minus (c ∷ ds) = in_range minus (value (c ∷ ds))

unfoldable pub stoi : Bytes → Result ℤ
unfolding skip_space sign digit_prefix convert
stoi s = let (minus, rest) = sign (skip_space s) in convert minus (digit_prefix rest)

pub value-snoc : (s : Bytes) (c : ℕ) → value (s ++ c ∷ []) ≡ value s * 10 + (c - b'0')
unfolding value
value-snoc s c = foldl-append push_digit 0 s (c ∷ [])

pub value-nil : value [] ≡ 0
unfolding value
value-nil = refl

abbrev pub IsDigits : Bytes → Type 0
IsDigits = All λ c. is_digit c ≡ true

digit_prefix-digits : (s : Bytes) → IsDigits s → digit_prefix s ≡ s
unfolding digit_prefix
digit_prefix-digits [] h = refl
digit_prefix-digits (c ∷ s) h = rw (h.0, digit_prefix-digits s h.1)

skip_space-digit : (c : ℕ) (s : Bytes) → is_digit c ≡ true → skip_space (c ∷ s) ≡ c ∷ s
unfolding skip_space is_digit
skip_space-digit c s h = ground arith

sign-digit : (c : ℕ) (s : Bytes) → is_digit c ≡ true → sign (c ∷ s) ≡ (false, c ∷ s)
unfolding sign is_digit
sign-digit c s h = ground arith

-- A text of digits converts to its value, if that is an `int`.
pub stoi-digits :
    (c : ℕ) (s : Bytes)
    → IsDigits (c ∷ s)
    → value (c ∷ s) < 2 ^ 31
    → stoi (c ∷ s) ≡ ok (pos (value (c ∷ s)))
unfolding stoi
stoi-digits c s h small =
    rw (skip_space-digit c s h.0, sign-digit c s h.0, digit_prefix-digits (c ∷ s) h) (ground arith)
