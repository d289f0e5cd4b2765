-- ===== src/Crypto/Store/Outcome.antt =====
-- What the stores of sdk/net/crypto/crypto.cc return.
use iggy_cpp_client.Prelude.{
  ℕ, ◌≡◌, refl, ◌≢◌, ◌↔◌, ◌⊎◌, true, false, Option, some, [], ◌∷◌, arith, inl, inr, Bool-cases,
}
use iggy_cpp_client.Prelude.Bytes.{Bytes}
use iggy_cpp_client.Prelude.Errors.{
  Result, ok, err, invalid_argument, runtime_error, out_of_range, bad_optional_access, ios_failure,
  filesystem_error, about,
}
use iggy_cpp_client.Crypto.Disk.{
  FilePath, Reading, closed, broken, content, Disk, is_absolute, join_path, absolute,
}
use iggy_cpp_client.Crypto.Store.{
  LocalCertificateStore, LocalKeyStore, value_or, new_certificate_store, get_certificate,
  new_key_store, get_private_key,
}

Reading-cases : (r : Reading) → (r ≡ closed) ⊎ ((r ≡ broken) ⊎ ((b : Bytes) × (r ≡ content b)))
Reading-cases closed = inl refl
Reading-cases broken = inr (inl refl)
Reading-cases (content b) = inr (inr (b, refl))

module _ (disk : Disk) where
  pub new_certificate_store_iff :
      (dir : Option FilePath) (s : LocalCertificateStore)
      → (new_certificate_store disk dir ≡ ok s) ↔ (
          (d : FilePath) × (absolute disk (value_or dir disk.current_path) ≡ ok d)
          × (disk.exists d ≡ true)
          × (disk.is_directory d ≡ true)
          × (s.cert_dir ≡ some d))
  unfolding new_certificate_store
  new_certificate_store_iff dir s =
      (built-from (absolute disk (value_or dir disk.current_path)) refl, λ h. ground (arith, h))
    where
      built-from :
          (r : Result FilePath)
          → absolute disk (value_or dir disk.current_path) ≡ r
          → new_certificate_store disk dir ≡ ok s
          → (d : FilePath) × (absolute disk (value_or dir disk.current_path) ≡ ok d)
            × (disk.exists d ≡ true)
            × (disk.is_directory d ≡ true)
            × (s.cert_dir ≡ some d)
      built-from (err e) refused h = absurd (ground arith)
      built-from (ok d) found h = (d, found, ground arith, ground arith, ground arith)

  -- The five ways in which loading a certificate from a file ends, `r` being what it gives.
  pub data Fetch (file : FilePath) (r : Result Bytes) : Type 0 where
    missing :
        disk.exists file ≡ false
        → r ≡ err (invalid_argument (about "certificate file does not exist: {}" file))
        → Fetch file r
    shut :
        disk.exists file ≡ true
        → disk.read file ≡ closed
        → r ≡ err (runtime_error (about "Failed to open certificate file: {}" file))
        → Fetch file r
    unreadable :
        disk.exists file ≡ true → disk.read file ≡ broken → r ≡ err ios_failure → Fetch file r
    blank :
        disk.exists file ≡ true
        → disk.read file ≡ content []
        → r ≡ err (runtime_error (about "Invalid certificate file (empty): {}" file))
        → Fetch file r
    loaded :
        (c : ℕ) (cs : Bytes)
        → disk.exists file ≡ true
        → disk.read file ≡ content (c ∷ cs)
        → r ≡ ok (c ∷ cs)
        → Fetch file r

  get_certificate_at :
      (s : LocalCertificateStore) (d : FilePath) (path : Bytes)
      → s.cert_dir ≡ some d
      → Fetch (join_path d path) (get_certificate disk s path)
  unfolding get_certificate
  get_certificate_at s d path at = elim (Bool-cases (disk.exists (join_path d path))) [
    | inr no_file ↦ missing no_file (ground arith)
    | inl there ↦ elim (Reading-cases (disk.read (join_path d path))) [
      | inl not_open ↦ shut there not_open (ground arith)
      | inr (inl fails) ↦ unreadable there fails (ground arith)
      | inr (inr ([], got)) ↦ blank there got (ground arith)
      | inr (inr (c ∷ cs, got)) ↦ loaded c cs there got (ground arith)
    ]
  ]

  -- Loading a certificate from a store that was built looks at the file of that name in the store's
  -- directory: it throws if the file does not exist, cannot be opened, cannot be read or is empty,
  -- and otherwise gives the whole content.
  pub get_certificate-Fetch :
      (dir : Option FilePath) (s : LocalCertificateStore) (path : Bytes)
      → new_certificate_store disk dir ≡ ok s
      → (d : FilePath) × (absolute disk (value_or dir disk.current_path) ≡ ok d)
        × Fetch (join_path d path) (get_certificate disk s path)
  get_certificate-Fetch dir s path built =
      let (d, found, _, _, at) = (new_certificate_store_iff dir s).0 built in
      (d, found, get_certificate_at s d path at)

-- A result without its message.
pub data Kind : Type 0 where
  loads : Bytes → Kind
  bad_argument bad_file bad_read other : Kind

abbrev pub kind : Result Bytes → Kind
kind (ok s) = loads s
kind (err (invalid_argument _)) = bad_argument
kind (err (runtime_error _)) = bad_file
kind (err ios_failure) = bad_read
kind (err (out_of_range _)) = other
kind (err bad_optional_access) = other
kind (err filesystem_error) = other

-- The two stores built on one directory answer alike, but for the wording of their errors; and
-- neither of them fails for want of a directory.
pub stores_agree :
    (disk : Disk) (dir : Option FilePath) (c : LocalCertificateStore) (k : LocalKeyStore)
    (path : Bytes)
    → new_certificate_store disk dir ≡ ok c
    → new_key_store disk dir ≡ ok k
    → (kind (get_certificate disk c path) ≡ kind (get_private_key disk k path))
      × (kind (get_certificate disk c path) ≢ other)
unfolding new_certificate_store get_certificate new_key_store get_private_key
stores_agree disk dir c k path hc hk = ground arith

join_path-absolute : (base path : FilePath) → is_absolute path ≡ true → join_path base path ≡ path
unfolding join_path
join_path-absolute base path abs = ground arith

-- A store, whatever its directory, loads the content of an absolute path from anywhere: if the file
-- of that name exists and has a content, that content is what it gives.
pub absolute_path_escapes :
    (disk : Disk) (dir : Option FilePath) (s : LocalCertificateStore) (path : Bytes) (c : ℕ)
    (cs : Bytes)
    → new_certificate_store disk dir ≡ ok s
    → is_absolute path ≡ true
    → disk.exists path ≡ true
    → disk.read path ≡ content (c ∷ cs)
    → get_certificate disk s path ≡ ok (c ∷ cs)
unfolding get_certificate
absolute_path_escapes disk dir s path c cs built abs there got =
    let (d, _, _, _, at) = (new_certificate_store_iff disk dir s).0 built in
    ground (arith, join_path-absolute d path abs)
