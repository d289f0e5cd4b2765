-- ===== src/Crypto/Environment.antt =====
-- `PKIEnvironment` of sdk/net/crypto/crypto.h. Its members are references, so the objects that
-- they refer to stand on a heap, and the environment holds their addresses.
pub mod Sharing
use iggy_cpp_client.Prelude.{ℕ, ◌≡◌, Bool, true, false, Option, none, some, ◌==◌, if◌then◌else◌}
use iggy_cpp_client.Prelude.Bytes.{Bytes}
use iggy_cpp_client.Prelude.Errors.{Result}
use iggy_cpp_client.Crypto.Disk.{Disk}
use iggy_cpp_client.Crypto.Store.{
  LocalCertificateStore, LocalKeyStore, get_certificate, get_private_key,
}
use iggy_cpp_client.Crypto.Authority.{CertificateAuthority}

-- The classes below `CertificateStore` and `KeyStore`: the local one, and those that a program adds,
-- with what their virtual member returns.
pub data CertificateStore : Type 0 where
  local_certificates : LocalCertificateStore → CertificateStore
  other_certificates : (Bytes → Result Bytes) → CertificateStore

pub data KeyStore : Type 0 where
  local_keys : LocalKeyStore → KeyStore
  other_keys : (Bytes → Result Bytes) → KeyStore

-- The virtual calls.
unfoldable pub certificate_from : Disk → CertificateStore → Bytes → Result Bytes
certificate_from disk (local_certificates s) path = get_certificate disk s path
certificate_from disk (other_certificates f) path = f path

unfoldable pub private_key_from : Disk → KeyStore → Bytes → Result Bytes
private_key_from disk (local_keys s) path = get_private_key disk s path
private_key_from disk (other_keys f) path = f path

-- The implicit `CertificateStore::operator=` and `KeyStore::operator=`, of a target and a source.
-- They assign the members of the base class, which has none: the target keeps its class and its
-- own members.
assign_certificate_store : CertificateStore → CertificateStore → CertificateStore
assign_certificate_store target source = target

assign_key_store : KeyStore → KeyStore → KeyStore
assign_key_store target source = target

abbrev pub write : {A : Type 0} → (ℕ → A) → ℕ → A → ℕ → A
write f p v q = if p == q then v else f q

pub record PkiEnvironment : Type 0 where
  pub cert_auth : ℕ
  pub cert_store : ℕ
  pub key_store : ℕ

module _ (Url : Type 0) where
  pub record Heap : Type 0 where
    pub authorities : ℕ → CertificateAuthority Url
    pub cert_stores : ℕ → CertificateStore
    pub key_stores : ℕ → KeyStore

  -- The getters, as what is read through the reference that they return.
  unfoldable pub get_certificate_authority : PkiEnvironment → Heap → CertificateAuthority Url
  get_certificate_authority env heap = heap.authorities env.cert_auth

  unfoldable pub get_certificate_store : PkiEnvironment → Heap → CertificateStore
  get_certificate_store env heap = heap.cert_stores env.cert_store

  unfoldable pub get_key_store : PkiEnvironment → Heap → KeyStore
  get_key_store env heap = heap.key_stores env.key_store

  -- `this->certAuth = certAuth` copies the object at the address given into the one referred to.
  unfoldable pub set_certificate_authority : PkiEnvironment → ℕ → Heap → Heap
  set_certificate_authority env source heap = record heap {
    authorities = write heap.authorities env.cert_auth (heap.authorities source);
  }

  unfoldable pub set_certificate_store : PkiEnvironment → ℕ → Heap → Heap
  unfolding assign_certificate_store
  set_certificate_store env source heap = record heap {
    cert_stores =
        write heap.cert_stores env.cert_store
          (assign_certificate_store (heap.cert_stores env.cert_store) (heap.cert_stores source));
  }

  unfoldable pub set_key_store : PkiEnvironment → ℕ → Heap → Heap
  unfolding assign_key_store
  set_key_store env source heap = record heap {
    key_stores =
        write heap.key_stores env.key_store
          (assign_key_store (heap.key_stores env.key_store) (heap.key_stores source));
  }
