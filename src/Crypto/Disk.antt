-- ===== src/Crypto/Disk.antt =====
-- The file system as sdk/net/crypto/crypto.cc asks for it through `std::filesystem` and
-- `std::ifstream`, with POSIX paths. `make_preferred` changes nothing there.
use iggy_cpp_client.Prelude.{Bool, false, not, [], ◌∷◌, ◌++◌, ◌==◌, if◌then◌else◌}
use iggy_cpp_client.Prelude.Bytes.{Bytes}
use iggy_cpp_client.Prelude.Errors.{Result, ok, err, filesystem_error}

abbrev pub FilePath : Type 0
FilePath = Bytes

-- Reading a file through a stream: it cannot be opened; it is open and reading it fails, as that of
-- a directory does; or it gives the content.
pub data Reading : Type 0 where
  closed broken : Reading
  content : Bytes → Reading

-- What is on the disk while a function runs.
pub record Disk : Type 0 where
  pub current_path : FilePath
  pub exists : FilePath → Bool
  pub is_directory : FilePath → Bool
  pub read : FilePath → Reading

unfoldable pub is_absolute : FilePath → Bool
is_absolute [] = false
is_absolute (c ∷ p) = c == b'/'

-- Whether a separator has to be put after a path: it is not empty and does not end in one.
needs_slash : FilePath → Bool
needs_slash [] = false
needs_slash (c ∷ []) = not (c == b'/')
needs_slash (c ∷ d ∷ p) = needs_slash (d ∷ p)

-- `base / path`: an absolute path replaces the base.
unfoldable pub join_path : FilePath → FilePath → FilePath
unfolding is_absolute needs_slash
join_path base path =
    if is_absolute path
    then path
    else if needs_slash base
    then base ++ (b'/' ∷ path)
    else base ++ path

-- `std::filesystem::absolute`, which in libstdc++ refuses the empty path.
unfoldable pub absolute : Disk → FilePath → Result FilePath
unfolding join_path
absolute disk [] = err filesystem_error
absolute disk (c ∷ path) = ok (join_path disk.current_path (c ∷ path))
