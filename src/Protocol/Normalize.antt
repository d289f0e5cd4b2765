-- ===== src/Protocol/Normalize.antt =====
-- `normalizeProtocolName` of sdk/net/protocol.cc: lower case, with the whitespace at both ends cut.
pub mod Cuts
pub mod Outcome
use mathlib.Core.List.{append_assoc, map-append}
use iggy_cpp_client.Prelude.{
  ℕ, zero, suc, ◌+◌, ◌-◌, ◌≤◌, ◌<◌, ◌≡◌, refl, sym, ap, subst, ◌∙◌, ◌⊎◌, inl, inr, Bool, true,
  false, Option, none, some, List, [], ◌∷◌, ◌++◌, map, arith, ltb, leb, ◌==◌, if◌then◌else◌, length,
  take, drop, All, length-append, take-length, drop-length, Bool-cases, has_value, Option-cases,
  not,
}
use iggy_cpp_client.Prelude.Bytes.{Bytes}
use iggy_cpp_client.Prelude.Errors.{Result, ok, err, ◌>>◌, ◌>>=◌, throw_if, invalid_argument, plain}
use iggy_cpp_client.Protocol.Text.{
  or_npos, contains, to_lower, find_first_not_of, find_last_not_of, substr, Listed,
  find_first_not_of-none, find_first_not_of-some, find_last_not_of-none, find_last_not_of-some,
}

-- " \t\n\r\f\v"
abbrev pub whitespace : Bytes
whitespace = b' ' ∷ 9 ∷ 10 ∷ 13 ∷ 12 ∷ 11 ∷ []

pub trimmed : Bytes → Result Bytes
unfolding find_first_not_of find_last_not_of substr
trimmed lower = elim (find_first_not_of whitespace lower) [
  | none ↦ err (invalid_argument (plain "Protocol name cannot be empty"))
  | some start ↦
      let end = or_npos (find_last_not_of whitespace lower) in substr lower start (end - start + 1)
]

unfoldable pub normalize_protocol_name : Bytes → Result Bytes
unfolding trimmed to_lower
normalize_protocol_name protocol = trimmed (map to_lower protocol)
