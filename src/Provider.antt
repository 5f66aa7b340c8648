-- ===== src/Provider.antt =====
-- internal/provider/provider.go: the secret that the components pass on, and the write-safety
-- contract of a target operation. A secret's version and descriptive metadata are read by none of
-- the components modelled here and are left out.
pub mod Oci
pub mod Local
use skret.Base.{Bool, true, false, Str}

pub data Capability : Type 0 where
  native_cas enforced_exclusive owner_risk_gate blocked : Capability
  -- any other text, the empty one included
  unknown : Str → Capability

-- `Capability.Valid`
unfoldable pub valid_capability : Capability → Bool
valid_capability (unknown _) = false
valid_capability _ = true

pub record Secret : Type 0 where
  pub key : Str
  pub value : Str
