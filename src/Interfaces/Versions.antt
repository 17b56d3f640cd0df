-- ===== src/Interfaces/Versions.antt =====
-- The versions of github.com/hashicorp/go-version.
use db_operator.Base.{Text, Option, Bool}

pub record Versions : Type 1 where
  pub Version : Type 0
  -- `NewVersion`, with `none` for its error
  pub new_version : Text → Option Version
  -- `LessThan`
  pub less_than : Version → Version → Bool
