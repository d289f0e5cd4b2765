-- ===== src/Tests/Names.antt =====
-- Runs of sdk/net/protocol.cc and sdk/net/iggy.cc.
use iggy_cpp_client.Prelude.{false, ◌≡◌, refl, ◌≢◌, ◌⊎◌, [], ◌∷◌, ◌++◌, map, All, has_value}
use iggy_cpp_client.Prelude.Bytes.{Bytes, codes, bytes_eq}
use iggy_cpp_client.Prelude.Errors.{ok, err}
use iggy_cpp_client.Protocol.Text.{to_lower, contains, find_first_not_of, find_last_not_of, substr}
use iggy_cpp_client.Protocol.Normalize.{normalize_protocol_name}
use iggy_cpp_client.Protocol.Normalize.Cuts.{IsBlank, IsCore, Cut}
use iggy_cpp_client.Protocol.Normalize.Outcome.{
  IsUpper, empty_name, normalize_outcome, normalize_idem, normalize_canonical,
  normalize_insensitive,
}
use iggy_cpp_client.Protocol.Provider.{IsLawful}
use iggy_cpp_client.Iggy.Lookup.{find, fill, last_named, find-fill}
use iggy_cpp_client.Iggy.Provider.{as_provider, is_supported, get_protocol_definition}
use iggy_cpp_client.Iggy.Supported.{Answer, supported-Answer}
use iggy_cpp_client.Iggy.Table.{
  iggy, new_provider-iggy, table, answer, iggy-table, quic_definition, tcp_definition, port_of,
  encoding_of, get_protocol_definition_consistent, as_provider-IsLawful, prefixed_unsupported,
}

abbrev shouted : Bytes
shouted = codes " QUIC "

abbrev plain_quic : Bytes
plain_quic = codes "quic"

shouted_run : normalize_protocol_name shouted ≡ ok plain_quic
unfolding normalize_protocol_name find_first_not_of find_last_not_of substr contains to_lower
shouted_run = refl

definition_run : get_protocol_definition iggy shouted ≡ ok quic_definition
unfolding get_protocol_definition normalize_protocol_name find_first_not_of find_last_not_of substr
    contains to_lower find bytes_eq
definition_run = refl

normalize_outcome_example :
    (IsBlank shouted × (normalize_protocol_name shouted ≡ err empty_name))
    ⊎ ((c : Cut shouted) × (normalize_protocol_name shouted ≡ ok (map to_lower c.core)))
normalize_outcome_example = normalize_outcome shouted

normalize_idem_example : normalize_protocol_name plain_quic ≡ ok plain_quic
normalize_idem_example = normalize_idem shouted plain_quic shouted_run

normalize_canonical_example :
    (plain_quic ≢ []) × IsCore plain_quic × All (λ c. ¬ IsUpper c) plain_quic
normalize_canonical_example = normalize_canonical shouted plain_quic shouted_run

space-IsBlank : IsBlank (codes " ")
unfolding contains
space-IsBlank = (refl, tt)

same_letters : map to_lower (codes "QUIC") ≡ map to_lower plain_quic
unfolding to_lower
same_letters = refl

normalize_insensitive_example :
    normalize_protocol_name (codes " " ++ (codes "QUIC" ++ codes " "))
    ≡ normalize_protocol_name plain_quic
normalize_insensitive_example =
    normalize_insensitive (codes " ") (codes "QUIC") (codes " ") plain_quic space-IsBlank
      space-IsBlank same_letters

find-fill_example :
    find plain_quic (fill (quic_definition ∷ tcp_definition ∷ []) [])
    ≡ last_named plain_quic (quic_definition ∷ tcp_definition ∷ [])
find-fill_example = find-fill plain_quic (quic_definition ∷ tcp_definition ∷ [])

supported-Answer_example : Answer iggy shouted
supported-Answer_example = supported-Answer iggy shouted

iggy-table_example :
    (is_supported iggy shouted ≡ ok (has_value (table plain_quic)))
    × (get_protocol_definition iggy shouted ≡ answer shouted (table plain_quic))
iggy-table_example = iggy-table iggy shouted plain_quic new_provider-iggy shouted_run

get_protocol_definition_consistent_example :
    (normalize_protocol_name shouted ≡ ok quic_definition.name)
    × (quic_definition.default_port ≡ port_of quic_definition.transport)
    × (quic_definition.message_encoding ≡ encoding_of quic_definition.transport)
get_protocol_definition_consistent_example =
    get_protocol_definition_consistent iggy shouted quic_definition new_provider-iggy definition_run

as_provider-IsLawful_example : IsLawful (as_provider iggy)
as_provider-IsLawful_example = as_provider-IsLawful iggy new_provider-iggy

abbrev prefixed : Bytes
prefixed = codes "iggy:quic"

prefixed_run : normalize_protocol_name prefixed ≡ ok (codes "iggy:" ++ codes "quic")
unfolding normalize_protocol_name find_first_not_of find_last_not_of substr contains to_lower
prefixed_run = refl

prefixed_unsupported_example : is_supported iggy prefixed ≡ ok false
prefixed_unsupported_example =
    prefixed_unsupported iggy prefixed (codes "quic") new_provider-iggy prefixed_run
