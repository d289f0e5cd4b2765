-- ===== src/Prelude/Errors.antt =====
-- C++ exceptions as values. A message is kept as its format string with the arguments that the
-- source hands to `fmt::format` or joins by `+`; rendering it is not modelled.
use Prim.Native.String.{String}
use mathlib.Core.Path.{◌≡◌, refl}
use mathlib.Core.Logic.{◌⊎◌, inl, inr}
use mathlib.Core.Bool.{Bool, true, false}
use mathlib.Core.List.{List, [], ◌∷◌}
use iggy_cpp_client.Prelude.Bytes.{Bytes}

pub record Message : Type 0 where
  pub text : String
  pub args : List Bytes

-- The exception classes that the source throws.
pub data Error : Type 0 where
  invalid_argument runtime_error out_of_range : Message → Error
  bad_optional_access ios_failure filesystem_error : Error

abbrev pub plain : String → Message
plain text = record { text = text; args = [] }

abbrev pub about : String → Bytes → Message
about text arg = record { text = text; args = arg ∷ [] }

-- What a call gives: its value, or the exception that it throws.
pub data Result {ℓ} (A : Type ℓ) : Type ℓ where
  err : Error → Result A
  ok : A → Result A

pub Result-cases {ℓ} :
    {A : Type ℓ} (r : Result A) → ((a : A) × (r ≡ ok a)) ⊎ ((e : Error) × (r ≡ err e))
Result-cases (ok a) = inl (a, refl)
Result-cases (err e) = inr (e, refl)

pub ok-injective {ℓ} : {A : Type ℓ} {a b : A} → ok a ≡ ok b → a ≡ b
ok-injective h = cc

-- `if (b) throw e;`
abbrev pub throw_if : Bool → Error → Result (Unit {0})
throw_if b thrown = elim b [ false ↦ ok tt | true ↦ err thrown ]

-- What follows a call, in code that an exception leaves.
module _ {ℓ κ} {A : Type ℓ} {B : Type κ} where
  infixl 5 ◌>>=◌
  abbrev pub ◌>>=◌ : Result A → (A → Result B) → Result B
  err thrown >>= rest = err thrown
  ok value >>= rest = rest value

  pub >>=-eq-ok :
      (call : Result A) (rest : A → Result B) {y : B}
      → (call >>= rest) ≡ ok y
      → (x : A) × (call ≡ ok x) × (rest x ≡ ok y)
  >>=-eq-ok (err thrown) rest h = cc
  >>=-eq-ok (ok x) rest h = (x, refl, h)

infixl 5 ◌>>◌
abbrev pub ◌>>◌ {κ} : {B : Type κ} → Result (Unit {0}) → Result B → Result B
check >> rest = check >>= λ _. rest
