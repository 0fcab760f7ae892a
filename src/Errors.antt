-- ===== src/Errors.antt =====
-- src/include/libfly/fly_error.h: the error codes.
use libfly.Prelude.{ℕ, Bool, true, false}

-- `enum fly_errors`
pub data Errcode : Type 0 where
  success : Errcode  -- FLYESUCCESS
  no_resources : Errcode  -- FLYENORES
  bad_attribute : Errcode  -- FLYEATTR
  low_level : Errcode  -- FLYELLLIB
  not_implemented : Errcode  -- FLYENOIMP

-- `FLY_SUCCEEDED`
abbrev pub succeeded : Errcode → Bool
succeeded success = true
succeeded _ = false

-- The number that stands for a code.
abbrev pub code : Errcode → ℕ
code success = 0
code no_resources = 1
code bad_attribute = 2
code low_level = 3
code not_implemented = 4
