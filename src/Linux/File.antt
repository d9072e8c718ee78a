-- ===== src/Linux/File.antt =====
-- The file interface of POSIX, which src/linux only calls.
pub mod Memory
use cpuinfo.Base.{ℕ, ◌≡◌, ◌≤◌, [], ◌++◌, Bytes, length, Option, ◌⊎◌}

-- What `read` returns: -1, or the bytes that it stored (none for the return value 0).
pub data ReadResult (F : Type 0) : Type 0 where
  read_error : F → ReadResult F
  bytes_read : Bytes → F → ReadResult F

-- Files with `open` for reading, which gives no file where it fails, and `read`. `contents` is what is still unread; the two laws are what POSIX
-- promises of a regular file: bytes come in order and at most as many as asked for, and the
-- return value 0 means that none were asked for or that the end of the file is reached.
pub record FileSystem : Type 1 where
  pub File : Type 0
  pub open_file : Bytes → Option File
  pub read : File → ℕ → ReadResult File
  pub contents : File → Bytes
  pub read_in_order :
      (f g : File) (n : ℕ) (bs : Bytes)
      → read f n ≡ bytes_read bs g
      → (contents f ≡ bs ++ contents g) × (length bs ≤ n)
  pub read_zero : (f g : File) (n : ℕ) → read f n ≡ bytes_read [] g → (n ≡ 0) ⊎ (contents f ≡ [])

-- A read that did not fail.
abbrev pub Succeeds : {F : Type 0} → ReadResult F → Type 0
Succeeds (read_error _) = ⊥
Succeeds (bytes_read _ _) = Unit

-- No read of the file system fails.
abbrev pub ReadsSucceed : FileSystem → Type 0
ReadsSucceed fs = (f : fs.File) (n : ℕ) → Succeeds (fs.read f n)
