-- ===== src/Sources/Storage.antt =====
-- infrastructure/adapters/source_file/local_source_file_storage.py. The file system and `uuid4` are
-- parameters.
use answer_service.Base.{◌++◌}
use answer_service.Base.Text.{Text}
use answer_service.Errors.{Result, ok, err, source_file_storage_error, foreign}
use answer_service.Application.Io.{Io, lift, ◌>>=◌, ◌>>◌}
use answer_service.Indexing.Values.{SourceReference, source_reference}
use answer_service.Sources.Reader.{Bytes}

-- How a file operation ends: it returns, it raises OSError, or it raises another exception, as
-- ValueError for a path with a NUL.
pub data Outcome (A : Type 0) : Type 0 where
  done : A → Outcome A
  os_error : Outcome A
  other_error : Outcome A

-- pathlib, and `_write` (mkdir, then write_bytes); a path is its text.
pub record FileSystem (S : Type 0) : Type 0 where
  pub new_name : S → Text × S
  pub suffix : (filename : Text) → Text
  pub join : (directory name : Text) → Text
  pub mkdir : (directory : Text) → S → Outcome (Unit {0}) × S
  pub write_bytes : (path : Text) → Bytes → S → Outcome (Unit {0}) × S
  pub read_bytes : (path : Text) → S → Outcome Bytes × S

module _ {S : Type 0} (files : FileSystem S) (directory : Text) where
  -- `try: … except OSError as e: raise SourceFileStorageError`
  attempted : {A : Type 0} → Outcome A × S → Result A × S
  attempted (done a, s) = (ok a, s)
  attempted (os_error, s) = (err source_file_storage_error, s)
  attempted (other_error, s) = (err foreign, s)

  -- `_write`
  write : (path : Text) → Bytes → Io S (Unit {0})
  unfolding attempted
  write path content = do
    λ s. attempted (files.mkdir directory s)
    λ s. attempted (files.write_bytes path content s)

  unfoldable pub save : (content : Bytes) (filename : Text) → Io S SourceReference
  unfolding write
  save content filename = do
    name ← λ s. (ok (files.new_name s).0, (files.new_name s).1)
    write (files.join directory (name ++ files.suffix filename)) content
    lift (source_reference (files.join directory (name ++ files.suffix filename)))

  unfoldable pub open_source : SourceReference → Io S Bytes
  unfolding attempted
  open_source reference s = attempted (files.read_bytes reference.value s)
