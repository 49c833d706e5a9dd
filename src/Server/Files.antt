-- ===== src/Server/Files.antt =====
-- `get_file_metadata` of rust/scheduler/src/lib.rs.
use ballista.Prelude.{zero, suc, ℤ, pos, negsuc, List, ◌++◌}
use ballista.Text.{Text, codes}
use ballista.Text.Decimal.{signed_decimal}
use ballista.Error.{general, Result, ok, err}
use ballista.Server.{internal, unimplemented, response, status, Handler, respond}

pub data FileType : Type 0 where
  nd_json parquet csv : FileType

abbrev invalid_file_type : ℤ → Result FileType
invalid_file_type n =
    err (
      general
        (codes "Attempted to convert invalid i32 to protobuf::Filetype: " ++ signed_decimal n))

-- `TryFrom<i32>`
unfoldable pub FileType_try_from : ℤ → Result FileType
FileType_try_from (pos zero) = ok nd_json
FileType_try_from (pos (suc zero)) = ok parquet
FileType_try_from (pos (suc (suc zero))) = ok csv
FileType_try_from (pos (suc (suc (suc n)))) = invalid_file_type (pos (suc (suc (suc n))))
FileType_try_from (negsuc n) = invalid_file_type (negsuc n)

-- A Parquet file that DataFusion opened: its schema, as a message, and its partitions' file names;
-- or the error, as rendered.
pub data Opened (Schema : Type 0) : Type 0 where
  opened : Schema → List (List Text) → Opened Schema
  not_opened : Text → Opened Schema

pub record FileMetadata (Schema : Type 0) : Type 0 where
  pub schema : Schema
  pub partitions : List (List Text)

module _ {S Schema : Type 0} (try_from_path : Text → Opened Schema) where
  abbrev parquet_metadata : Opened Schema → Handler S (FileMetadata Schema)
  parquet_metadata (opened schema partitions) s =
      (response (record { schema = schema; partitions = partitions }), s)
  parquet_metadata (not_opened e) s =
      (status internal (codes "Error opening parquet files: " ++ e), s)

  abbrev metadata_of : Text → FileType → Handler S (FileMetadata Schema)
  metadata_of path parquet s = parquet_metadata (try_from_path path) s
  metadata_of path nd_json s =
      (status unimplemented (codes "get_file_metadata unsupported file type"), s)
  metadata_of path csv s =
      (status unimplemented (codes "get_file_metadata unsupported file type"), s)

  unfoldable pub get_file_metadata : Text → ℤ → Handler S (FileMetadata Schema)
  unfolding FileType_try_from
  get_file_metadata path file_type =
      respond (codes "Error reading request: ") (FileType_try_from file_type) (metadata_of path)
