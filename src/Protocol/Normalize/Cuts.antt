-- ===== src/Protocol/Normalize/Cuts.antt =====
-- A text cut into the whitespace at its ends and what stands between, and what `find_first_not_of`,
-- `find_last_not_of` and `substr` make of such a cut.
use mathlib.Core.List.{append_assoc}
use iggy_cpp_client.Prelude.{
  ℕ, ◌+◌, ◌-◌, ◌≡◌, refl, sym, ap, subst, ◌∙◌, ◌⊎◌, inl, inr, false, some, [], ◌∷◌, ◌++◌, arith,
  length, length-append, take-length, drop-length, Bool-cases,
}
use iggy_cpp_client.Prelude.Bytes.{Bytes}
use iggy_cpp_client.Prelude.Errors.{ok, err, invalid_argument, plain}
use iggy_cpp_client.Protocol.Text.{
  contains, find_first_not_of, find_last_not_of, substr, Listed, find_first_not_of-none,
  find_first_not_of-some, find_last_not_of-some,
}
use iggy_cpp_client.Protocol.Normalize.{whitespace, trimmed}

-- A text of whitespace only.
abbrev pub IsBlank : Bytes → Type 0
IsBlank = Listed whitespace

-- A text whose first and last characters are no whitespace.
pub record IsCore (s : Bytes) : Type 0 where
  pub first : ℕ
  pub after : Bytes
  pub starts : s ≡ first ∷ after
  pub first_kept : contains whitespace first ≡ false
  pub before : Bytes
  pub last : ℕ
  pub ends : s ≡ before ++ last ∷ []
  pub last_kept : contains whitespace last ≡ false

-- A text cut into the whitespace at its ends and what stands between.
pub record Cut (s : Bytes) : Type 0 where
  pub pre : Bytes
  pub core : Bytes
  pub post : Bytes
  pub whole : s ≡ pre ++ (core ++ post)
  pub pre_blank : IsBlank pre
  pub is_core : IsCore core
  pub post_blank : IsBlank post

pub trimmed-blank :
    (s : Bytes)
    → IsBlank s
    → trimmed s ≡ err (invalid_argument (plain "Protocol name cannot be empty"))
unfolding trimmed
trimmed-blank s h = rw (find_first_not_of-none whitespace s h, trimmed)

first_of_cut : (s : Bytes) (c : Cut s) → find_first_not_of whitespace s ≡ some (length c.pre)
first_of_cut s c =
    rw (c.whole, c.is_core.starts)
      (find_first_not_of-some whitespace c.pre c.is_core.first _ c.pre_blank c.is_core.first_kept)

regroup : (pre l post : Bytes) (d : ℕ) → pre ++ ((l ++ d ∷ []) ++ post) ≡ (pre ++ l) ++ d ∷ post
regroup pre l post d = simp append_assoc

whole-ends : (s : Bytes) (c : Cut s) → s ≡ (c.pre ++ c.is_core.before) ++ c.is_core.last ∷ c.post
whole-ends s c =
    c.whole
    ∙ ap (λ mid. c.pre ++ (mid ++ c.post)) c.is_core.ends
    ∙ regroup c.pre c.is_core.before c.post c.is_core.last

last_of_cut :
    (s : Bytes) (c : Cut s)
    → find_last_not_of whitespace s ≡ some (length (c.pre ++ c.is_core.before))
last_of_cut s c = rw (whole-ends s c) (
    find_last_not_of-some whitespace (c.pre ++ c.is_core.before) c.is_core.last c.post c.post_blank
      c.is_core.last_kept)

substr-cut :
    (pre core post : Bytes) (n : ℕ)
    → n ≡ length core
    → substr (pre ++ (core ++ post)) (length pre) n ≡ ok core
unfolding substr
substr-cut pre core post n e =
    rw (e, drop-length pre (core ++ post), take-length core post)
      (ground (arith, length-append pre (core ++ post)))

length-core :
    (s : Bytes) (c : Cut s) → length (c.pre ++ c.is_core.before) - length c.pre + 1 ≡ length c.core
length-core s c = omega (
  arith,
  length-append c.pre c.is_core.before,
  ap length c.is_core.ends,
  length-append c.is_core.before (c.is_core.last ∷ []),
)

pub trimmed-cut : (s : Bytes) (c : Cut s) → trimmed s ≡ ok c.core
unfolding trimmed
trimmed-cut s c =
    rw (first_of_cut s c, trimmed, last_of_cut s c)
      (rw c.whole (substr-cut c.pre c.core c.post _ (length-core s c)))

-- Every text is blank or can be cut.
last_cut :
    (s : Bytes)
    → IsBlank s
      ⊎ ((l : Bytes) × (d : ℕ) × (post : Bytes) × (s ≡ l ++ d ∷ post)
          × (contains whitespace d ≡ false)
          × IsBlank post)
last_cut [] = inl tt
last_cut (x ∷ xs) = elim (last_cut xs) [
  | inr (l, d, post, e, k, b) ↦ inr (x ∷ l, d, post, ap (λ t. x ∷ t) e, k, b)
  | inl b ↦ elim (Bool-cases (contains whitespace x)) [
    | inl h ↦ inl (h, b)
    | inr h ↦ inr ([], x, xs, refl, h, b)
  ]
]

first_cut :
    (s : Bytes)
    → IsBlank s
      ⊎ ((pre : Bytes) × (c : ℕ) × (rest : Bytes) × (s ≡ pre ++ c ∷ rest)
          × IsBlank pre
          × (contains whitespace c ≡ false))
first_cut [] = inl tt
first_cut (x ∷ xs) = elim (Bool-cases (contains whitespace x)) [
  | inr h ↦ inr ([], x, xs, refl, tt, h)
  | inl h ↦ elim (first_cut xs) [
    | inl b ↦ inl (h, b)
    | inr (pre, c, rest, e, b, k) ↦ inr (x ∷ pre, c, rest, ap (λ t. x ∷ t) e, (h, b), k)
  ]
]

IsCore-of :
    (c d : ℕ) (rest l post : Bytes)
    → c ∷ rest ≡ l ++ d ∷ post
    → contains whitespace c ≡ false
    → contains whitespace d ≡ false
    → IsCore (l ++ d ∷ [])
IsCore-of c d rest [] post e hc hd = record {
  first = d;
  after = [];
  starts = refl;
  first_kept = hd;
  before = [];
  last = d;
  ends = refl;
  last_kept = hd;
}
IsCore-of c d rest (y ∷ l) post e hc hd = record {
  first = y;
  after = l ++ d ∷ [];
  starts = refl;
  first_kept = ground arith;
  before = y ∷ l;
  last = d;
  ends = refl;
  last_kept = hd;
}

-- A text with a character that is kept is not blank.
cut_rest :
    (c : ℕ) (rest pre : Bytes) → IsBlank pre → contains whitespace c ≡ false → Cut (pre ++ c ∷ rest)
cut_rest c rest pre b hc = elim (last_cut (c ∷ rest)) [
  | inl (h, _) ↦ absurd (cc)
  | inr (l, d, post, e, hd, bp) ↦ record {
    pre = pre;
    core = l ++ d ∷ [];
    post = post;
    whole = ap (λ t. pre ++ t) (e ∙ sym (append_assoc l (d ∷ []) post));
    pre_blank = b;
    is_core = IsCore-of c d rest l post e hc hd;
    post_blank = bp;
  }
]

pub cut_cases : (s : Bytes) → IsBlank s ⊎ Cut s
cut_cases s = elim (first_cut s) [
  | inl b ↦ inl b
  | inr (pre, c, rest, e, b, k) ↦ inr (subst Cut (sym e) (cut_rest c rest pre b k))
]
