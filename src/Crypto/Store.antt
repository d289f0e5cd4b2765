-- ===== src/Crypto/Store.antt =====
-- `LocalCertificateStore` and `LocalKeyStore` of sdk/net/crypto/crypto.h and crypto.cc.
pub mod Outcome
use iggy_cpp_client.Prelude.{
  ℕ, Bool, true, false, not, Option, none, some, List, [], ◌∷◌, ◌==◌, if◌then◌else◌,
}
use iggy_cpp_client.Prelude.Bytes.{Bytes, is_empty}
use iggy_cpp_client.Prelude.Errors.{
  Result, ok, err, ◌>>=◌, ◌>>◌, throw_if, invalid_argument, runtime_error, bad_optional_access,
  ios_failure, about,
}
use iggy_cpp_client.Crypto.Disk.{
  FilePath, Reading, closed, broken, content, Disk, join_path, absolute,
}

abbrev pub value_or : Option FilePath → FilePath → FilePath
value_or none p = p
value_or (some q) p = q

-- `std::optional::value`
abbrev optional_value : {A : Type 0} → Option A → Result A
optional_value none = err bad_optional_access
optional_value (some a) = ok a

-- The content of a file, or `failure` if it cannot be opened. The stream's buffer throws where
-- reading fails.
abbrev opened : Reading → Result Bytes → Result Bytes
opened closed failure = failure
opened broken failure = err ios_failure
opened (content bytes) failure = ok bytes

pub record LocalCertificateStore : Type 0 where
  pub cert_dir : Option FilePath

pub record LocalKeyStore : Type 0 where
  pub private_key_dir : Option FilePath

module _ (disk : Disk) where
  unfoldable pub new_certificate_store : Option FilePath → Result LocalCertificateStore
  new_certificate_store cert_dir = do
    cert_dir_abs ← absolute disk (value_or cert_dir disk.current_path)
    (if not (disk.exists cert_dir_abs)
        then err (invalid_argument (about "certificate directory does not exist: {}" cert_dir_abs))
        else if not (disk.is_directory cert_dir_abs)
        then err (
            invalid_argument
              (about "certificate directory is not a valid directory: {}" cert_dir_abs))
        else ok (record { cert_dir = some cert_dir_abs }))

  unfoldable pub get_certificate : LocalCertificateStore → Bytes → Result Bytes
  get_certificate store cert_path = do
    dir ← optional_value store.cert_dir
    let cert_file = join_path dir cert_path
    throw_if (not (disk.exists cert_file))
        (invalid_argument (about "certificate file does not exist: {}" cert_file))
    cert_data ←
        opened (disk.read cert_file)
          (err (runtime_error (about "Failed to open certificate file: {}" cert_file)))
    throw_if (is_empty cert_data)
        (runtime_error (about "Invalid certificate file (empty): {}" cert_file))
    ok cert_data

  unfoldable pub new_key_store : Option FilePath → Result LocalKeyStore
  new_key_store key_dir = do
    key_dir_abs ← absolute disk (value_or key_dir disk.current_path)
    throw_if (not (disk.exists key_dir_abs))
        (invalid_argument (about "key directory does not exist: {}" key_dir_abs))
    throw_if (not (disk.is_directory key_dir_abs))
        (invalid_argument (about "key directory is not a valid directory: {}" key_dir_abs))
    ok (record { private_key_dir = some key_dir_abs })

  unfoldable pub get_private_key : LocalKeyStore → Bytes → Result Bytes
  get_private_key store key_path = do
    dir ← optional_value store.private_key_dir
    let key_file = join_path dir key_path
    throw_if (not (disk.exists key_file))
        (invalid_argument (about "private key file does not exist: {}" key_file))
    key_data ←
        opened (disk.read key_file)
          (err (runtime_error (about "Failed to open private key file: {}" key_file)))
    throw_if (is_empty key_data)
        (runtime_error (about "Invalid private key file (empty): {}" key_file))
    ok key_data
