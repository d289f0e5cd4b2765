-- ===== src/Tests/Stores.antt =====
-- Runs of the stores and the environment of sdk/net/crypto/crypto.h and sdk/net/crypto/crypto.cc.
use iggy_cpp_client.Prelude.{
  ℕ, ◌≡◌, refl, ◌≢◌, true, none, some, List, [], ◌∷◌, ◌==◌, if◌then◌else◌,
}
use iggy_cpp_client.Prelude.Bytes.{codes, bytes_eq}
use iggy_cpp_client.Prelude.Errors.{ok}
use iggy_cpp_client.Crypto.Disk.{FilePath, content, closed, Disk, is_absolute, join_path, absolute}
use iggy_cpp_client.Crypto.Store.{
  LocalCertificateStore, LocalKeyStore, value_or, new_certificate_store, get_certificate,
  new_key_store, get_private_key,
}
use iggy_cpp_client.Crypto.Store.Outcome.{
  Fetch, get_certificate-Fetch, kind, other, stores_agree, absolute_path_escapes,
}
use iggy_cpp_client.Crypto.Authority.{crl, default_crl, new_authority, default_authority}
use iggy_cpp_client.Crypto.Environment.{
  local_certificates, local_keys, certificate_from, private_key_from, PkiEnvironment, Heap,
  get_certificate_authority, get_certificate_store, get_key_store,
}
use iggy_cpp_client.Crypto.Environment.Sharing.{
  Setter, authority, certificates, keys, set_all, set_stores_ignored, origin, authority_origin,
}

abbrev test_disk : Disk
test_disk = record {
  current_path = codes "/home";
  exists = λ p. true;
  is_directory = λ p. true;
  read = λ p. if bytes_eq p (codes "/home/c.pem") then content (codes "data") else closed;
}

abbrev test_store : LocalCertificateStore
test_store = record { cert_dir = some (codes "/home") }

abbrev test_keys : LocalKeyStore
test_keys = record { private_key_dir = some (codes "/home") }

store_run : new_certificate_store test_disk (some (codes "/home")) ≡ ok test_store
unfolding new_certificate_store absolute join_path is_absolute
store_run = refl

keys_run : new_key_store test_disk (some (codes "/home")) ≡ ok test_keys
unfolding new_key_store absolute join_path is_absolute
keys_run = refl

abbrev etc_store : LocalCertificateStore
etc_store = record { cert_dir = some (codes "/etc") }

etc_run : new_certificate_store test_disk (some (codes "/etc")) ≡ ok etc_store
unfolding new_certificate_store absolute join_path is_absolute
etc_run = refl

content_run : get_certificate test_disk test_store (codes "c.pem") ≡ ok (codes "data")
unfolding get_certificate join_path is_absolute bytes_eq
content_run = refl

get_certificate-Fetch_example :
    (d : FilePath) × (absolute test_disk (value_or (some (codes "/home")) test_disk.current_path)
      ≡ ok d)
    × Fetch test_disk
        (join_path d (codes "c.pem"))
        (get_certificate test_disk test_store (codes "c.pem"))
get_certificate-Fetch_example =
    get_certificate-Fetch test_disk (some (codes "/home")) test_store (codes "c.pem") store_run

stores_agree_example :
    (kind (get_certificate test_disk test_store (codes "c.pem"))
      ≡ kind (get_private_key test_disk test_keys (codes "c.pem")))
    × (kind (get_certificate test_disk test_store (codes "c.pem")) ≢ other)
stores_agree_example =
    stores_agree test_disk (some (codes "/home")) test_store test_keys (codes "c.pem") store_run
      keys_run

etc_read : test_disk.read (codes "/home/c.pem") ≡ content (codes "data")
unfolding bytes_eq
etc_read = refl

home_absolute : is_absolute (codes "/home/c.pem") ≡ true
unfolding is_absolute
home_absolute = refl

absolute_path_escapes_example :
    get_certificate test_disk etc_store (codes "/home/c.pem") ≡ ok (codes "data")
absolute_path_escapes_example =
    absolute_path_escapes test_disk (some (codes "/etc")) etc_store (codes "/home/c.pem") b'd'
      (codes "ata") etc_run home_absolute refl etc_read

abbrev test_heap : Heap ℕ
test_heap = record {
  authorities =
      λ p. if p == 0 then default_authority ℕ else new_authority ℕ none (crl (default_crl ℕ));
  cert_stores = λ p. if p == 0 then local_certificates test_store else local_certificates etc_store;
  key_stores = λ p. local_keys test_keys;
}

abbrev test_env : PkiEnvironment
test_env = record { cert_auth = 0; cert_store = 0; key_store = 0 }

abbrev test_setters : List Setter
test_setters = authority test_env 1 ∷ certificates test_env 1 ∷ keys test_env 1 ∷ []

set_stores_ignored_example :
    (certificate_from test_disk
        (get_certificate_store ℕ test_env (set_all ℕ test_setters test_heap))
        (codes "c.pem")
      ≡ certificate_from test_disk (get_certificate_store ℕ test_env test_heap) (codes "c.pem"))
    × (private_key_from test_disk
          (get_key_store ℕ test_env (set_all ℕ test_setters test_heap))
          (codes "c.pem")
        ≡ private_key_from test_disk (get_key_store ℕ test_env test_heap) (codes "c.pem"))
set_stores_ignored_example =
    set_stores_ignored ℕ test_setters test_heap test_env test_disk (codes "c.pem")

authority_origin_example :
    get_certificate_authority ℕ test_env (set_all ℕ test_setters test_heap)
    ≡ test_heap.authorities 1
unfolding origin
authority_origin_example = authority_origin ℕ test_setters test_heap test_env
