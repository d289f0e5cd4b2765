-- ===== src/Crypto/Authority.antt =====
-- The enumeration `CertificateFormat`, the revocation methods and `CertificateAuthority` of
-- sdk/net/crypto/crypto.h. Each getter returns its field.
use iggy_cpp_client.Prelude.{ℕ, Bool, true, Option, none, List, [], ◌∷◌, ◌++◌}
use iggy_cpp_client.Prelude.Bytes.{Bytes}
use iggy_cpp_client.Crypto.Disk.{FilePath}

pub data CertificateFormat : Type 0 where
  pem asn1 : CertificateFormat

-- The numbers of the enumerators.
unfoldable pub format_code : CertificateFormat → ℕ
format_code pem = 1
format_code asn1 = 2

-- `Url` is the type `ada::url`.
module _ (Url : Type 0) where
  pub record Crl : Type 0 where
    pub crl_path : Option FilePath
    pub crl_url : Option Url

  pub record Ocsp : Type 0 where
    pub ocsp_override_url : Option Url
    pub stapling_enabled : Bool

  -- The classes below `RevocationMethod`.
  pub data RevocationMethod : Type 0 where
    crl : Crl → RevocationMethod
    ocsp : Ocsp → RevocationMethod

  -- The default arguments of the two constructors.
  abbrev pub default_crl : Crl
  default_crl = record { crl_path = none; crl_url = none }

  abbrev pub default_ocsp : Ocsp
  default_ocsp = record { ocsp_override_url = none; stapling_enabled = true }

  pub record CertificateAuthority : Type 0 where
    pub override_ca_certificate_path : Option Bytes
    pub trusted_peer_certificate_paths : List Bytes
    pub revocation_method : RevocationMethod

  unfoldable pub new_authority : Option Bytes → RevocationMethod → CertificateAuthority
  new_authority path method = record {
    override_ca_certificate_path = path;
    trusted_peer_certificate_paths = [];
    revocation_method = method;
  }

  -- `CertificateAuthority::getDefault`, when it is first called.
  unfoldable pub default_authority : CertificateAuthority
  unfolding new_authority
  default_authority = new_authority none (ocsp default_ocsp)

  unfoldable pub add_trusted_peer_certificate : Bytes → CertificateAuthority → CertificateAuthority
  add_trusted_peer_certificate path ca = record ca {
    trusted_peer_certificate_paths = ca.trusted_peer_certificate_paths ++ path ∷ [];
  }
