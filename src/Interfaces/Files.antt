-- ===== src/Interfaces/Files.antt =====
-- What the connector of PostgreSQL uses of `os` and `crypto/sha256`, over a world.
use db_operator.Base.{Text, Bool}
use db_operator.Base.Exec.{Exec}

pub record Files (W : Type 0) : Type 0 where
  -- the 64 digits of `fmt.Sprintf("%x", sha256.Sum256(contents))`
  pub digest : Text → Text
  -- `os.Stat`, whether it had no error
  pub stat : Text → W → Bool × W
  -- `os.MkdirAll`, whose error is dropped
  pub mkdir_all : Text → W → W
  -- `os.WriteFile`
  pub write_file : Text → Text → Exec W (Unit {0})
