-- ===== src/Address/Logical/Outcome.antt =====
-- What a `LogicalAddress` of sdk/net/address.cc answers once it has been constructed.
use iggy_cpp_client.Prelude.{
  ==_iff, ◌==◌, Bool-cases, ap, ℕ, ◌+◌, ◌-◌, ◌<◌, ◌^◌, ◌%◌, ◌≡◌, refl, ◌≢◌, ◌∙◌, sym, ◌⊎◌, inl, inr,
  true, false, none, some, [], ◌∷◌, ◌++◌, arith, length, length-append, take-length, Option-cases,
  subst,
}
use iggy_cpp_client.Prelude.Bytes.{Bytes, is_empty}
use iggy_cpp_client.Prelude.Errors.{
  Error, ok, err, invalid_argument, about, Result-cases, ok-injective,
}
use iggy_cpp_client.Protocol.Text.{substr}
use iggy_cpp_client.Protocol.Definition.{ProtocolDefinition}
use iggy_cpp_client.Protocol.Provider.{ProtocolProvider, IsLawful}
use iggy_cpp_client.Address.Decimal.{decimal, stoi-decimal, decimal-ne-nil}
use iggy_cpp_client.Address.Ada.{Ada, IsStandard, special_port}
use iggy_cpp_client.Address.Logical.{
  chop, LogicalAddress, new_address, get_protocol, get_protocol_definition, get_port, explicit_port,
}

chop-colon : (s : Bytes) (c : ℕ) → length (s ++ c ∷ []) < 2 ^ 63 → chop (s ++ c ∷ []) ≡ ok s
unfolding chop substr
chop-colon s c small =
    let count : (length (s ++ c ∷ []) + 2 ^ 64 - 1) % 2 ^ 64 ≡ length s =
      omega (arith, length-append s (c ∷ [])) in
    rw (count, take-length s (c ∷ [])) (ground arith)

explicit_port-decimal : (n : ℕ) → n < 2 ^ 16 → explicit_port (decimal n) ≡ ok n
unfolding explicit_port
explicit_port-decimal n h = rw (stoi-decimal n (omega arith)) (ground arith)

is_empty-decimal : (n : ℕ) → is_empty (decimal n) ≡ false
is_empty-decimal n = go (decimal n) (decimal-ne-nil n)
  where
    go : (s : Bytes) → s ≢ [] → is_empty s ≡ false
    go [] h = absurd (h refl)
    go (c ∷ s) h = refl

module _ (ada : Ada) (a : LogicalAddress ada) where
  get_port-explicit : (n : ℕ) → ada.get_port a.url ≡ decimal n → n < 2 ^ 16 → get_port ada a ≡ ok n
  unfolding get_port
  get_port-explicit n text small = rw (text, is_empty-decimal n) (explicit_port-decimal n small)

  pub get_port-default :
      (d : ProtocolDefinition)
      → ada.get_port a.url ≡ []
      → get_protocol_definition ada a ≡ ok d
      → get_port ada a ≡ ok d.default_port
  unfolding get_port
  get_port-default d absent got = rw (absent, got)

module _ (ada : Ada) where
  -- The four ways in which the constructor ends.
  pub data Construction (url : Bytes) (p : ProtocolProvider) : Type 0 where
    invalid :
        ada.parse url ≡ none
        → new_address ada url p ≡ err (invalid_argument (about "Invalid URL: " url))
        → Construction url p
    refused :
        (u : ada.Url) (protocol : Bytes) (e : Error)
        → ada.parse url ≡ some u
        → ada.get_protocol u ≡ protocol ++ b':' ∷ []
        → p.is_supported protocol ≡ err e
        → new_address ada url p ≡ err e
        → Construction url p
    unsupported :
        (u : ada.Url) (protocol : Bytes)
        → ada.parse url ≡ some u
        → ada.get_protocol u ≡ protocol ++ b':' ∷ []
        → p.is_supported protocol ≡ ok false
        → new_address ada url p ≡ err (invalid_argument (about "Unsupported protocol: " protocol))
        → Construction url p
    accepted :
        (u : ada.Url) (protocol : Bytes)
        → ada.parse url ≡ some u
        → ada.get_protocol u ≡ protocol ++ b':' ∷ []
        → p.is_supported protocol ≡ ok true
        → new_address ada url p ≡ ok (record { url = u; protocol_provider = p })
        → Construction url p

  module _ (std : IsStandard ada) where
    chop-form :
        (u : ada.Url) (s : Bytes)
        → ada.get_protocol u ≡ s ++ b':' ∷ []
        → chop (ada.get_protocol u) ≡ ok s
    chop-form u s form =
        rw form (chop-colon s b':' (subst (λ t. length t < 2 ^ 63) form (std.protocol_size u)))

    chop-protocol : (u : ada.Url) → chop (ada.get_protocol u) ≡ ok (std.scheme u)
    chop-protocol u = chop-form u (std.scheme u) (std.protocol_form u)

    form-scheme : (u : ada.Url) (s : Bytes) → ada.get_protocol u ≡ s ++ b':' ∷ [] → s ≡ std.scheme u
    form-scheme u s form = ok-injective (sym (chop-form u s form) ∙ chop-protocol u)

    new_address-parsed :
        (url : Bytes) (p : ProtocolProvider) (u : ada.Url)
        → ada.parse url ≡ some u
        → Construction url p
    unfolding new_address
    new_address-parsed url p u parsed = elim (Result-cases (p.is_supported (std.scheme u))) [
      | inr (e, h) ↦
          refused u (std.scheme u) e parsed (std.protocol_form u) h
            (ground (arith, chop-protocol u))
      | inl (true, h) ↦
          accepted u (std.scheme u) parsed (std.protocol_form u) h (ground (arith, chop-protocol u))
      | inl (false, h) ↦
          unsupported u (std.scheme u) parsed (std.protocol_form u) h
            (ground (arith, chop-protocol u))
    ]

    -- With a URL parser that meets the standard, constructing an address from a URL fails exactly
    -- if the URL does not parse, if asking the provider for the protocol (what stands before the
    -- colon) throws, or if the provider does not support it; otherwise it gives the parsed URL with
    -- the provider.
    pub new_address_outcome : (url : Bytes) (p : ProtocolProvider) → Construction url p
    unfolding new_address
    new_address_outcome url p = elim (Option-cases (ada.parse url)) [
      | inl missing ↦ invalid missing (ground arith)
      | inr (u, parsed) ↦ new_address-parsed url p u parsed
    ]

    -- What a constructed address knows of itself.
    accepted_facts :
        (url : Bytes) (p : ProtocolProvider) (a : LogicalAddress ada)
        → new_address ada url p ≡ ok a
        → (ada.parse url ≡ some a.url)
          × (a.protocol_provider ≡ p)
          × (p.is_supported (std.scheme a.url) ≡ ok true)
    accepted_facts url p a h = go (new_address_outcome url p)
      where
        go :
            Construction url p
            → (ada.parse url ≡ some a.url)
              × (a.protocol_provider ≡ p)
              × (p.is_supported (std.scheme a.url) ≡ ok true)
        go (invalid _ k) = absurd (cc)
        go (refused _ _ _ _ _ _ k) = absurd (cc)
        go (unsupported _ _ _ _ _ k) = absurd (cc)
        go (accepted u s parsed form holds k) =
            let built : ◌≡◌ {A = LogicalAddress ada} (record { url = u; protocol_provider = p }) a =
              ok-injective (sym k ∙ h) in
            subst
              (λ (b : LogicalAddress ada).
                (ada.parse url ≡ some b.url)
                × (b.protocol_provider ≡ p)
                × (p.is_supported (std.scheme b.url) ≡ ok true))
              built
              (parsed, refl, subst (λ t. p.is_supported t ≡ ok true) (form-scheme u s form) holds)

    -- With a URL parser that meets the standard and a lawful provider, the protocol of a
    -- constructed address is one that the provider supports: the getter does not fail, and the
    -- provider has a definition for what it returns.
    pub address_supported :
        (url : Bytes) (p : ProtocolProvider) (a : LogicalAddress ada)
        → IsLawful p
        → new_address ada url p ≡ ok a
        → (protocol : Bytes) × (d : ProtocolDefinition) × (get_protocol ada a ≡ ok protocol)
          × (p.is_supported protocol ≡ ok true)
          × (get_protocol_definition ada a ≡ ok d)
          × (p.get_protocol_definition protocol ≡ ok d)
    unfolding get_protocol_definition
    address_supported url p a lawful h =
        let (_, same, holds) = accepted_facts url p a h in
        let (d, defined) = lawful.definition_of_supported (std.scheme a.url) holds in
        (
          std.scheme a.url,
          d,
          chop-protocol a.url,
          holds,
          rw (chop-protocol a.url, same) defined,
          defined,
        )

    pub definition_of_scheme :
        (url : Bytes) (p : ProtocolProvider) (a : LogicalAddress ada) (d : ProtocolDefinition)
        → new_address ada url p ≡ ok a
        → p.get_protocol_definition (std.scheme a.url) ≡ ok d
        → get_protocol_definition ada a ≡ ok d
    unfolding get_protocol_definition get_protocol
    definition_of_scheme url p a d h defined =
        let (_, same, _) = accepted_facts url p a h in rw (chop-protocol a.url, same) defined

    -- What the parser keeps of a port.
    port_form-cases :
        (u : ada.Url)
        → ((ada.get_port u ≡ [])
            × ((std.written u ≡ none) ⊎ (std.written u ≡ special_port (std.scheme u))))
          ⊎ ((n : ℕ) × (std.written u ≡ some n)
              × (special_port (std.scheme u) ≢ some n)
              × (ada.get_port u ≡ decimal n))
    port_form-cases u = elim (Option-cases (std.written u)) [
      | inl bare ↦ inl (std.port_form u ∙ rw bare, inl bare)
      | inr (n, writes) ↦ elim (Option-cases (special_port (std.scheme u))) [
        | inl plain_scheme ↦ inr (n, writes, λ e. cc, std.port_form u ∙ rw (writes, plain_scheme))
        | inr (m, special) ↦ elim (Bool-cases (m == n)) [
          | inl same ↦
              let equal : m ≡ n = (==_iff m n).0 same in
              inl (
                std.port_form u ∙ rw (writes, special, same),
                inr (writes ∙ ap some (sym equal) ∙ sym special),
              )
          | inr apart ↦
              inr (n, writes, λ e. ground arith, std.port_form u ∙ rw (writes, special, apart))
        ]
      ]
    ]

    -- With a URL parser that meets the standard and a lawful provider, a constructed address has a
    -- port, and asking for it does not throw. It is below 2 ^ 16; it is the number that the URL
    -- writes, where that is not the default port that the URL standard gives to the scheme; where
    -- it is, and where the URL writes none, it is the provider's default for the protocol.
    pub get_port_total :
        (url : Bytes) (p : ProtocolProvider) (a : LogicalAddress ada)
        → IsLawful p
        → new_address ada url p ≡ ok a
        → (n : ℕ) × (get_port ada a ≡ ok n)
          × (n < 2 ^ 16)
          × ((((std.written a.url ≡ none) ⊎ (std.written a.url ≡ special_port (std.scheme a.url)))
                × ((d : ProtocolDefinition) × (get_protocol_definition ada a ≡ ok d)
                    × (n ≡ d.default_port)))
              ⊎ ((std.written a.url ≡ some n) × (special_port (std.scheme a.url) ≢ some n)))
    get_port_total url p a lawful h = elim (port_form-cases a.url) [
      | inl (absent, why) ↦
          let (s, d, _, _, got, defined) = address_supported url p a lawful h in
          (
            d.default_port,
            get_port-default ada a d absent got,
            lawful.port_in_range s d defined,
            inl (why, (d, got, refl)),
          )
      | inr (n, writes, other, text) ↦
          let small = std.written_range a.url n writes in
          (n, get_port-explicit ada a n text small, small, inr (writes, other))
    ]
