-- ===== src/Ssl/Ciphers/Laws.antt =====
-- What `getDefaultCipherList` of sdk/net/crypto/ssl.cc returns, over all builds of WolfSSL.
use iggy_cpp_client.Prelude.{
  ◌≡◌, refl, ◌≢◌, subst, ◌⊎◌, inl, inr, Bool, true, false, not, ◌&&◌, ◌||◌, [], ◌∷◌, arith, ◌==◌,
  leb, if◌then◌else◌, All,
}
use iggy_cpp_client.Prelude.Bytes.{Bytes, codes, bytes_eq}
use iggy_cpp_client.Prelude.Errors.{Result, ok, err, >>=-eq-ok, ok-injective}
use iggy_cpp_client.Ssl.Version.{ProtocolVersion, tlsv1_2, tlsv1_3, get_protocol_version_name}
use iggy_cpp_client.Ssl.Ciphers.{
  Build, Ciphers, Pushes, push_all, aes, chacha, tls13_pushes, tls12_pushes, collect, checked,
  get_default_cipher_list,
}

abbrev pub is_ok {ℓ} : {A : Type ℓ} → Result A → Bool
is_ok (ok _) = true
is_ok (err _) = false

-- Upper-case letters, digits and underscores.
abbrev pub is_token : Bytes → Bool
is_token [] = true
is_token (c ∷ s) =
    ((leb b'A' c && leb c b'Z') || (leb b'0' c && leb c b'9') || c == b'_') && is_token s

abbrev pub IsToken : Bytes → Type 0
IsToken s = is_token s ≡ true

push_all-All : (l : Pushes) → All (λ push. IsToken push.1) l → All IsToken (push_all l)
unfolding push_all
push_all-All [] h = tt
push_all-All ((true, name) ∷ l) h = (h.0, push_all-All l h.1)
push_all-All ((false, name) ∷ l) h = push_all-All l h.1

tls13_pushes-tokens : (b : Build) → All (λ push. IsToken push.1) (tls13_pushes b)
unfolding tls13_pushes
tls13_pushes-tokens b = (refl, (refl, (refl, tt)))

tls12_pushes-tokens : (b : Build) → All (λ push. IsToken push.1) (tls12_pushes b)
unfolding tls12_pushes
tls12_pushes-tokens b = (refl, (refl, (refl, (refl, (refl, (refl, tt))))))

-- The rows of pushes that `collect` runs.
collect-cases :
    (b : Build) (v : ProtocolVersion) (l : Ciphers)
    → collect b v ≡ ok l
    → (push_all (tls13_pushes b) ≡ l) ⊎ (push_all (tls12_pushes b) ≡ l)
unfolding collect get_protocol_version_name
collect-cases b v l h = ground arith

checked-ok : (v : ProtocolVersion) (l m : Ciphers) → checked v l ≡ ok m → (l ≡ m) × (m ≢ [])
unfolding checked get_protocol_version_name
checked-ok v [] m h = ground arith
checked-ok v (c ∷ cs) m h = (ok-injective h, ground arith)

list_source :
    (b : Build) (v : ProtocolVersion) (l : Ciphers)
    → get_default_cipher_list b v ≡ ok l
    → (collect b v ≡ ok l) × (l ≢ [])
unfolding get_default_cipher_list
list_source b v l h =
    let (m, collected, kept) = >>=-eq-ok (collect b v) _ h in
    let (same, full) = checked-ok v m l kept in
    (subst (λ (x : Ciphers). collect b v ≡ ok x) same collected, full)

-- A default cipher list is never empty, and every name in it is made of upper-case letters, digits
-- and underscores.
pub default_ciphers_tokens :
    (b : Build) (v : ProtocolVersion) (l : Ciphers)
    → get_default_cipher_list b v ≡ ok l
    → (l ≢ []) × All IsToken l
default_ciphers_tokens b v l h =
    let (collected, full) = list_source b v l h in
    (
      full,
      elim (collect-cases b v l collected) [
        | inl e ↦ subst (All IsToken) e (push_all-All (tls13_pushes b) (tls13_pushes-tokens b))
        | inr e ↦ subst (All IsToken) e (push_all-All (tls12_pushes b) (tls12_pushes-tokens b))
      ],
    )

-- The builds that have a cipher for a version.
abbrev pub available : Build → ProtocolVersion → Bool
available b v =
    if v == tlsv1_3
    then not b.wolfssl_no_tls13 && (aes b || chacha b)
    else if v == tlsv1_2
    then not b.wolfssl_no_tls12 && (b.have_ecc && b.have_supported_curves) && (aes b || chacha b)
    else false

abbrev any_pushed : Pushes → Bool
any_pushed [] = false
any_pushed ((defined, name) ∷ l) = defined || any_pushed l

is_ok-checked : (v : ProtocolVersion) (l : Pushes) → is_ok (checked v (push_all l)) ≡ any_pushed l
unfolding checked push_all get_protocol_version_name
is_ok-checked v [] = ground arith
is_ok-checked v ((true, name) ∷ l) = refl
is_ok-checked v ((false, name) ∷ l) = is_ok-checked v l

any_tls13 : (b : Build) → any_pushed (tls13_pushes b) ≡ (aes b || chacha b)
unfolding tls13_pushes
any_tls13 b = ground arith

any_tls12 : (b : Build) → any_pushed (tls12_pushes b) ≡ (aes b || chacha b)
unfolding tls12_pushes
any_tls12 b = ground arith

-- The default cipher list exists exactly for TLS 1.2 and 1.3, in the builds that have that version
-- and AES-GCM or ChaCha20-Poly1305, and for TLS 1.2 elliptic curves as well.
pub default_ciphers_available :
    (b : Build) (v : ProtocolVersion) → is_ok (get_default_cipher_list b v) ≡ available b v
unfolding get_default_cipher_list collect get_protocol_version_name
default_ciphers_available b v = ground (
  arith,
  is_ok-checked v (tls13_pushes b),
  is_ok-checked v (tls12_pushes b),
  any_tls13 b,
  any_tls12 b,
)

abbrev at_end : Bytes → Bytes → Bool → Bool
at_end suffix s later = bytes_eq s suffix || later

-- Whether a text ends in another.
abbrev pub ends_in : Bytes → Bytes → Bool
ends_in suffix [] = at_end suffix [] false
ends_in suffix (c ∷ s) = at_end suffix (c ∷ s) (ends_in suffix s)

-- Whether a list holds a suite whose name ends in SHA384.
abbrev pub asks_for_sha384 : Ciphers → Bool
asks_for_sha384 [] = false
asks_for_sha384 (s ∷ l) = ends_in (codes "SHA384") s || asks_for_sha384 l

abbrev asked_by : Pushes → Bool
asked_by [] = false
asked_by ((defined, name) ∷ l) = (defined && ends_in (codes "SHA384") name) || asked_by l

asks_for_sha384-push_all : (l : Pushes) → asks_for_sha384 (push_all l) ≡ asked_by l
unfolding push_all
asks_for_sha384-push_all [] = refl
asks_for_sha384-push_all ((true, name) ∷ l) = cc (asks_for_sha384-push_all l)
asks_for_sha384-push_all ((false, name) ∷ l) = asks_for_sha384-push_all l

asked_by-tls13 : (b : Build) → asked_by (tls13_pushes b) ≡ (aes b && b.wolfssl_sha384)
unfolding tls13_pushes bytes_eq
asked_by-tls13 b = ground arith

asked_by-tls12 :
    (b : Build) → asked_by (tls12_pushes b) ≡ (aes b && (b.wolfssl_sha384 || not b.no_rsa))
unfolding tls12_pushes bytes_eq
asked_by-tls12 b = ground arith

-- When a default cipher list holds a suite whose name ends in SHA384: for TLS 1.3 exactly in the
-- builds with AES-GCM and SHA-384; for TLS 1.2 exactly in those with AES-GCM that have SHA-384 or
-- RSA, so also in some without SHA-384.
pub default_ciphers_sha384 :
    (b : Build) (v : ProtocolVersion) (l : Ciphers)
    → get_default_cipher_list b v ≡ ok l
    → asks_for_sha384 l ≡ (aes b && (b.wolfssl_sha384 || (v == tlsv1_2 && not b.no_rsa)))
unfolding collect get_protocol_version_name
default_ciphers_sha384 b v l h =
    let (collected, _) = list_source b v l h in
    ground (
      arith,
      asks_for_sha384-push_all (tls13_pushes b),
      asks_for_sha384-push_all (tls12_pushes b),
      asked_by-tls13 b,
      asked_by-tls12 b,
      collected,
    )
