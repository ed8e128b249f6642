-- ===== src/Config/Files.antt =====
-- What the two scripts use of `pathlib`, `tomllib` and `json`, as parameters.
use bowerbird.Base.{String, Bool, List, Result}
use bowerbird.Config.Value.{Value}

-- The ways in which a configuration file is found.
pub data Reading (S : Type 0) : Type 0 where
  missing : Reading S
  parsed : Value S → Reading S
  malformed : String → Reading S
  unreadable : String → Reading S
  -- Bytes that are not UTF-8: a UnicodeDecodeError, which neither handler catches.
  undecodable : Reading S

pub record Files (S : Type 0) : Type 1 where
  pub FilePath : Type 0
  -- `path / name`
  pub join : FilePath → String → FilePath
  -- `str(path)` and `path.name`
  pub show : FilePath → String
  pub name : FilePath → String
  -- `path.exists()`
  pub present : FilePath → Bool
  -- A path and its parents, up to the root.
  pub lineage : FilePath → List FilePath
  pub read : FilePath → Reading S
  -- `json.dumps(output, indent=2, ensure_ascii=False)`
  pub dumps : Value S → Result String
