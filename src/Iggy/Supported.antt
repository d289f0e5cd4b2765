-- ===== src/Iggy/Supported.antt =====
-- Which protocols the provider of sdk/net/iggy.cc supports, and with what definitions.
use mathlib.Core.List.{Mem, mem-cons_self, mem-cons_of_mem}
use iggy_cpp_client.Prelude.{
  ◌≡◌, sym, subst, ◌∙◌, inl, inr, true, false, none, some, List, [], ◌∷◌, arith, Option-cases,
}
use iggy_cpp_client.Prelude.Bytes.{Bytes, bytes_eq_iff}
use iggy_cpp_client.Prelude.Errors.{
  Error, ok, err, >>=-eq-ok, Result-cases, invalid_argument, about,
}
use iggy_cpp_client.Protocol.Normalize.{normalize_protocol_name}
use iggy_cpp_client.Protocol.Definition.{ProtocolDefinition}
use iggy_cpp_client.Iggy.Lookup.{find, last_named, find-fill}
use iggy_cpp_client.Iggy.Provider.{
  IggyProtocolProvider, initial_protocols, new_provider, get_protocol_definition, is_supported,
}

-- The lookup holds the last definition of each name in the list.
abbrev pub IsIndexed : IggyProtocolProvider → Type 0
IsIndexed p =
    (name : Bytes) → find name p.supported_protocol_lookup ≡ last_named name p.supported_protocols

pub new_provider-IsIndexed : {p : IggyProtocolProvider} → new_provider ≡ ok p → IsIndexed p
unfolding new_provider
new_provider-IsIndexed {p} h name =
    let (ds, _, built) = >>=-eq-ok initial_protocols _ h in
    subst
      (λ (q : IggyProtocolProvider).
        find name q.supported_protocol_lookup ≡ last_named name q.supported_protocols)
      (ground arith) (find-fill name ds)

last_named-mem :
    (k : Bytes) (ds : List ProtocolDefinition) (d : ProtocolDefinition)
    → last_named k ds ≡ some d
    → Mem d ds × (d.name ≡ k)
unfolding last_named
last_named-mem k [] d h = absurd (cc)
last_named-mem k (e ∷ ds) d h = elim (Option-cases (last_named k ds)) [
  | inr (x, found) ↦
      let (m, n) = last_named-mem k ds d (found ∙ ground arith) in (mem-cons_of_mem e m, n)
  | inl missing ↦
      let same : e ≡ d = ground arith in
      (subst (λ x. Mem x (e ∷ ds)) same mem-cons_self, ground (arith, bytes_eq_iff e.name k))
]

abbrev pub unsupported : Bytes → Error
unsupported protocol = invalid_argument (about "Unsupported protocol: " protocol)

-- The three ways in which the two queries answer.
pub data Answer (p : IggyProtocolProvider) (s : Bytes) : Type 0 where
  rejected :
      (e : Error)
      → normalize_protocol_name s ≡ err e
      → is_supported p s ≡ err e
      → get_protocol_definition p s ≡ err e
      → Answer p s
  unknown :
      (t : Bytes)
      → normalize_protocol_name s ≡ ok t
      → find t p.supported_protocol_lookup ≡ none
      → is_supported p s ≡ ok false
      → get_protocol_definition p s ≡ err (unsupported s)
      → Answer p s
  known :
      (t : Bytes) (d : ProtocolDefinition)
      → normalize_protocol_name s ≡ ok t
      → find t p.supported_protocol_lookup ≡ some d
      → is_supported p s ≡ ok true
      → get_protocol_definition p s ≡ ok d
      → Answer p s

-- `isSupported` and `getProtocolDefinition` agree on every name: both pass the error of a blank
-- name on; or the first answers false and the second throws; or the first answers true and the
-- second returns what the lookup holds under the normalised name.
pub supported-Answer : (p : IggyProtocolProvider) (s : Bytes) → Answer p s
unfolding get_protocol_definition is_supported
supported-Answer p s = elim (Result-cases (normalize_protocol_name s)) [
  | inr (e, rejects) ↦ rejected e rejects (ground arith) (ground arith)
  | inl (t, accepts) ↦ elim (Option-cases (find t p.supported_protocol_lookup)) [
    | inl missing ↦ unknown t accepts missing (ground arith) (ground arith)
    | inr (d, found) ↦ known t d accepts found (ground arith) (ground arith)
  ]
]

-- A definition that the provider returns is one of those that it enumerates, and its name is the
-- normalised form of the name asked for.
pub get_protocol_definition-mem :
    (p : IggyProtocolProvider) (s : Bytes) (d : ProtocolDefinition)
    → new_provider ≡ ok p
    → get_protocol_definition p s ≡ ok d
    → Mem d p.supported_protocols × (normalize_protocol_name s ≡ ok d.name)
get_protocol_definition-mem p s d built h = go (supported-Answer p s)
  where
    go : Answer p s → Mem d p.supported_protocols × (normalize_protocol_name s ≡ ok d.name)
    go (rejected e _ _ k) = absurd (cc)
    go (unknown t _ _ _ k) = absurd (cc)
    go (known t e accepts found _ k) =
        let same : e ≡ d = ground arith in
        let (m, n) =
          last_named-mem t p.supported_protocols e (sym (new_provider-IsIndexed built t) ∙ found) in
        (subst (λ x. Mem x p.supported_protocols) same m, accepts ∙ ground arith)
