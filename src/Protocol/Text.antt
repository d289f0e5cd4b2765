-- ===== src/Protocol/Text.antt =====
-- The members of `std::string` and the C library's `tolower` that sdk/net/protocol.cc calls.
use iggy_cpp_client.Prelude.{
  ℕ, suc, ◌+◌, ◌-◌, ◌^◌, ◌≡◌, refl, Bool, true, false, ◌||◌, ◌&&◌, Option, none, some, [], ◌∷◌,
  ◌++◌, ltb, leb, ◌==◌, if◌then◌else◌, length, take, drop, All,
}
use iggy_cpp_client.Prelude.Bytes.{Bytes}
use iggy_cpp_client.Prelude.Errors.{Result, ok, ◌>>◌, throw_if, out_of_range, plain}

-- `std::string::npos`
abbrev pub npos : ℕ
npos = 2 ^ 64 - 1

abbrev pub or_npos : Option ℕ → ℕ
or_npos none = npos
or_npos (some i) = i

unfoldable pub contains : Bytes → ℕ → Bool
contains [] c = false
contains (x ∷ xs) c = x == c || contains xs c

-- `tolower` in the C locale.
unfoldable pub to_lower : ℕ → ℕ
to_lower c = if leb b'A' c && leb c b'Z' then c + 32 else c

abbrev shift : Option ℕ → Option ℕ
shift none = none
shift (some i) = some (suc i)

unfoldable pub find_first_not_of : Bytes → Bytes → Option ℕ
unfolding contains
find_first_not_of set [] = none
find_first_not_of set (x ∷ xs) = if contains set x then shift (find_first_not_of set xs) else some 0

abbrev last_of : Bool → Option ℕ → Option ℕ
last_of listed (some i) = some (suc i)
last_of true none = none
last_of false none = some 0

unfoldable pub find_last_not_of : Bytes → Bytes → Option ℕ
unfolding contains
find_last_not_of set [] = none
find_last_not_of set (x ∷ xs) = last_of (contains set x) (find_last_not_of set xs)

-- Throws if `pos` lies past the end; a count that reaches past the end is cut.
unfoldable pub substr : Bytes → ℕ → ℕ → Result Bytes
substr s pos count = do
  throw_if (ltb (length s) pos) (out_of_range (plain "basic_string::substr"))
  ok (take count (drop pos s))

abbrev pub Listed : Bytes → Bytes → Type 0
Listed set = All λ c. contains set c ≡ true

pub find_first_not_of-none : (set s : Bytes) → Listed set s → find_first_not_of set s ≡ none
unfolding find_first_not_of
find_first_not_of-none set [] h = refl
find_first_not_of-none set (x ∷ xs) h = rw (h.0, find_first_not_of-none set xs h.1)

pub find_first_not_of-some :
    (set pre : Bytes) (c : ℕ) (rest : Bytes)
    → Listed set pre
    → contains set c ≡ false
    → find_first_not_of set (pre ++ c ∷ rest) ≡ some (length pre)
unfolding find_first_not_of
find_first_not_of-some set [] c rest h k = rw k
find_first_not_of-some set (x ∷ pre) c rest h k =
    rw (h.0, find_first_not_of-some set pre c rest h.1 k)

pub find_last_not_of-none : (set s : Bytes) → Listed set s → find_last_not_of set s ≡ none
unfolding find_last_not_of
find_last_not_of-none set [] h = refl
find_last_not_of-none set (x ∷ xs) h = rw (h.0, find_last_not_of-none set xs h.1)

pub find_last_not_of-some :
    (set pre : Bytes) (c : ℕ) (post : Bytes)
    → Listed set post
    → contains set c ≡ false
    → find_last_not_of set (pre ++ c ∷ post) ≡ some (length pre)
unfolding find_last_not_of
find_last_not_of-some set [] c post h k = rw (k, find_last_not_of-none set post h)
find_last_not_of-some set (x ∷ pre) c post h k = rw (find_last_not_of-some set pre c post h k)
