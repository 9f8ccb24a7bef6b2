-- ===== src/Blobs.antt =====
-- internal/store/blobfs and internal/store/blobs3: raw messages in files and in an S3 bucket. The file
-- system, path/filepath and the S3 client are parameters.
use agent_layer.Prelude.{String, Bool, Option, none, some, ◌==◌, ◌||◌, if◌then◌else◌}
use agent_layer.Prelude.Exec.{
  Exec, Error, Result, ok, err, failure, not_found, fail, pure, ◌>>=◌, ◌>>◌,
}
use agent_layer.Domain.{Bytes}
use agent_layer.Text.{Unicode, trim_space, has_prefix}

-- path/filepath, for a separator `/`.
pub record FilePaths : Type 0 where
  pub clean : String → String
  pub is_abs : String → Bool
  pub dir : String → String
  pub join : String → String → String

-- The calls of os; a file that does not exist is read as none.
pub record FileSystem (S : Type 0) : Type 0 where
  pub mkdir_all : String → Exec S (Unit {0})
  pub write_file : String → Bytes → Exec S (Unit {0})
  pub read_file : String → Exec S (Option Bytes)

module _ (unicode : Unicode) (paths : FilePaths) (root : String) where
  -- objectPath
  unfoldable pub object_path : String → Result String
  object_path object_key =
      let cleaned = paths.clean (trim_space unicode object_key) in
      if cleaned == "." || cleaned == ""
      then err (failure "object key is required")
      else if paths.is_abs cleaned || cleaned == ".." || has_prefix cleaned "../"
      then err (failure "object key must stay within blob store root")
      else ok (paths.join root cleaned)

  module _ {S : Type 0} (files : FileSystem S) where
    abbrev pub put_at : Bytes → Result String → Exec S (Unit {0})
    put_at content (err e) = fail e
    put_at content (ok path) = files.mkdir_all (paths.dir path) >> files.write_file path content

    unfoldable pub put_file : String → Bytes → Exec S (Unit {0})
    unfolding object_path
    put_file object_key content = put_at content (object_path object_key)

    abbrev pub content_or : Option Bytes → Exec S Bytes
    content_or none = fail (not_found "")
    content_or (some content) = pure content

    abbrev pub get_at : Result String → Exec S Bytes
    get_at (err e) = fail e
    get_at (ok path) = files.read_file path >>= content_or

    unfoldable pub get_file : String → Exec S Bytes
    unfolding object_path
    get_file object_key = get_at (object_path object_key)

-- An object that GetObject could not give: the code of an API error, or another error. An error while
-- its body is read is one of the other errors.
pub data ObjectError : Type 0 where
  api_error : String → ObjectError
  other_error : Error → ObjectError

pub data Object : Type 0 where
  object : Bytes → Object
  no_object : ObjectError → Object

pub record S3Client (S : Type 0) : Type 0 where
  pub put_object : String → String → Bytes → Exec S (Unit {0})
  pub get_object : String → String → S → Object × S

module _ {S : Type 0} (unicode : Unicode) (client : S3Client S) (bucket : String) where
  unfoldable pub put_s3 : String → Bytes → Exec S (Unit {0})
  put_s3 object_key content =
      if trim_space unicode object_key == ""
      then fail (failure "object key is required")
      else client.put_object bucket object_key content

  abbrev pub object_result : Object → Result Bytes
  object_result (object content) = ok content
  object_result (no_object (other_error e)) = err e
  object_result (no_object (api_error code)) =
      if code == "NoSuchKey" || code == "NotFound" then err (not_found "") else err (failure code)

  unfoldable pub get_s3 : String → Exec S Bytes
  get_s3 object_key s =
      if trim_space unicode object_key == ""
      then (err (failure "object key is required"), s)
      else let (o, s') = client.get_object bucket object_key s in (object_result o, s')
