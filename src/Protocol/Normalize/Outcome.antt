-- ===== src/Protocol/Normalize/Outcome.antt =====
-- What `normalizeProtocolName` of sdk/net/protocol.cc returns.
use mathlib.Core.List.{append_assoc, map-append, append-nil}
use iggy_cpp_client.Prelude.{
  ℕ, ◌≤◌, ◌≡◌, refl, sym, ap, subst, ◌∙◌, ◌⊎◌, inl, inr, [], ◌∷◌, ◌++◌, map, arith, All, All-append,
  ◌≢◌,
}
use iggy_cpp_client.Prelude.Bytes.{Bytes}
use iggy_cpp_client.Prelude.Errors.{Error, ok, err, invalid_argument, plain}
use iggy_cpp_client.Protocol.Text.{contains, to_lower}
use iggy_cpp_client.Protocol.Normalize.{whitespace, trimmed, normalize_protocol_name}
use iggy_cpp_client.Protocol.Normalize.Cuts.{
  IsBlank, IsCore, Cut, cut_cases, trimmed-blank, trimmed-cut,
}

-- Lower case keeps whitespace, and makes none.
to_lower-space : (c : ℕ) → contains whitespace (to_lower c) ≡ contains whitespace c
unfolding contains to_lower
to_lower-space c = ground arith

to_lower_idem : (c : ℕ) → to_lower (to_lower c) ≡ to_lower c
unfolding to_lower
to_lower_idem c = ground arith

map-to_lower_idem : (s : Bytes) → map to_lower (map to_lower s) ≡ map to_lower s
map-to_lower_idem [] = refl
map-to_lower_idem (c ∷ s) = cc (to_lower_idem c, map-to_lower_idem s)

map-to_lower-IsBlank : (s : Bytes) → IsBlank s → IsBlank (map to_lower s)
map-to_lower-IsBlank [] h = tt
map-to_lower-IsBlank (c ∷ s) h = (to_lower-space c ∙ h.0, map-to_lower-IsBlank s h.1)

map-to_lower-IsCore : (s : Bytes) → IsCore s → IsCore (map to_lower s)
map-to_lower-IsCore s c = record {
  first = to_lower c.first;
  after = map to_lower c.after;
  starts = ap (map to_lower) c.starts;
  first_kept = to_lower-space c.first ∙ c.first_kept;
  before = map to_lower c.before;
  last = to_lower c.last;
  ends = ap (map to_lower) c.ends ∙ map-append to_lower c.before (c.last ∷ []);
  last_kept = to_lower-space c.last ∙ c.last_kept;
}

map-to_lower-cut : (s : Bytes) → Cut s → Cut (map to_lower s)
map-to_lower-cut s c = record {
  pre = map to_lower c.pre;
  core = map to_lower c.core;
  post = map to_lower c.post;
  whole = ap (map to_lower) c.whole ∙ simp map-append;
  pre_blank = map-to_lower-IsBlank c.pre c.pre_blank;
  is_core = map-to_lower-IsCore c.core c.is_core;
  post_blank = map-to_lower-IsBlank c.post c.post_blank;
}

abbrev pub empty_name : Error
empty_name = invalid_argument (plain "Protocol name cannot be empty")

normalize-blank : (s : Bytes) → IsBlank s → normalize_protocol_name s ≡ err empty_name
unfolding normalize_protocol_name
normalize-blank s b = trimmed-blank _ (map-to_lower-IsBlank s b)

normalize-cut : (s : Bytes) (c : Cut s) → normalize_protocol_name s ≡ ok (map to_lower c.core)
unfolding normalize_protocol_name map-to_lower-cut
normalize-cut s c = trimmed-cut _ (map-to_lower-cut s c)

-- Normalising fails exactly on the texts of whitespace; any other text is cut at both ends and what
-- stands between comes back in lower case.
pub normalize_outcome :
    (s : Bytes)
    → (IsBlank s × (normalize_protocol_name s ≡ err empty_name))
      ⊎ ((c : Cut s) × (normalize_protocol_name s ≡ ok (map to_lower c.core)))
normalize_outcome s = elim (cut_cases s) [
  | inl b ↦ inl (b, normalize-blank s b)
  | inr c ↦ inr (c, normalize-cut s c)
]

-- A text that begins and ends with no whitespace is its own cut.
core-cut : (s : Bytes) → IsCore s → Cut s
core-cut s c = record {
  pre = [];
  core = s;
  post = [];
  whole = sym (append-nil s);
  pre_blank = tt;
  is_core = c;
  post_blank = tt;
}

-- Every result is the lower case of a core.
normalize_source :
    (s t : Bytes)
    → normalize_protocol_name s ≡ ok t
    → (core : Bytes) × IsCore core × (t ≡ map to_lower core)
normalize_source s t h = elim (normalize_outcome s) [
  | inl (_, e) ↦ cc
  | inr (c, e) ↦ (c.core, c.is_core, (ground arith))
]

-- A normalised name is a fixed point: normalising it again gives it back.
pub normalize_idem :
    (s t : Bytes) → normalize_protocol_name s ≡ ok t → normalize_protocol_name t ≡ ok t
unfolding core-cut
normalize_idem s t h =
    let (core, is_core, e) = normalize_source s t h in
    let cut = core-cut t (subst IsCore (sym e) (map-to_lower-IsCore core is_core)) in
    normalize-cut t cut
    ∙ ap (λ u. ok u) (subst (λ u. map to_lower u ≡ u) (sym e) (map-to_lower_idem core))

-- A character that `tolower` would change.
abbrev pub IsUpper : ℕ → Type 0
IsUpper c = (b'A' ≤ c) × (c ≤ b'Z')

to_lower-not-IsUpper : (c : ℕ) → ¬ IsUpper (to_lower c)
unfolding to_lower
to_lower-not-IsUpper c = ground arith

map-to_lower-All : (s : Bytes) → All (λ c. ¬ IsUpper c) (map to_lower s)
map-to_lower-All [] = tt
map-to_lower-All (c ∷ s) = (to_lower-not-IsUpper c, map-to_lower-All s)

-- A normalised name is not empty, begins and ends with no whitespace, and holds no upper-case
-- letter.
pub normalize_canonical :
    (s t : Bytes)
    → normalize_protocol_name s ≡ ok t
    → (t ≢ []) × IsCore t × All (λ c. ¬ IsUpper c) t
normalize_canonical s t h =
    let (core, is_core, e) = normalize_source s t h in
    let kept = subst IsCore (sym e) (map-to_lower-IsCore core is_core) in
    (λ empty. cc (kept.starts), kept, subst (All λ c. ¬ IsUpper c) (sym e) (map-to_lower-All core))

append-IsBlank : (s t : Bytes) → IsBlank s → IsBlank t → IsBlank (s ++ t)
append-IsBlank s t h k = All-append _ s t h k

pad-cut : (pre s post : Bytes) → IsBlank pre → IsBlank post → Cut s → Cut (pre ++ (s ++ post))
pad-cut pre s post h k c = record {
  pre = pre ++ c.pre;
  core = c.core;
  post = c.post ++ post;
  whole = rw c.whole (simp append_assoc);
  pre_blank = append-IsBlank pre c.pre h c.pre_blank;
  is_core = c.is_core;
  post_blank = append-IsBlank c.post post c.post_blank k;
}

pad-normalize :
    (pre s post : Bytes)
    → IsBlank pre
    → IsBlank post
    → normalize_protocol_name (pre ++ (s ++ post)) ≡ normalize_protocol_name s
unfolding pad-cut
pad-normalize pre s post h k = elim (cut_cases s) [
  | inl b ↦
      normalize-blank _ (append-IsBlank pre _ h (append-IsBlank s post b k))
      ∙ sym (normalize-blank s b)
  | inr c ↦ normalize-cut _ (pad-cut pre s post h k c) ∙ sym (normalize-cut s c)
]

-- Two names that are equal up to the case of their letters normalise alike, also with whitespace
-- put round one of them.
pub normalize_insensitive :
    (pre s post s' : Bytes)
    → IsBlank pre
    → IsBlank post
    → map to_lower s ≡ map to_lower s'
    → normalize_protocol_name (pre ++ (s ++ post)) ≡ normalize_protocol_name s'
unfolding normalize_protocol_name
normalize_insensitive pre s post s' h k e = pad-normalize pre s post h k ∙ ap trimmed e
