-- ===== src/Finance/Gateway.antt =====
-- apps/finance/gateways/base.py: what a gateway's adapter answers. The adapters talk HTTP, so they
-- are a parameter: `get_gateway` gives the adapter of a name, or `none` where it raises
-- `GatewayNotConfigured`.
use schapp.Base.{Bool, Option, Text}
use schapp.Int.{ℤ}

pub record Charge : Type 0 where
  pub is_ok : Bool
  pub error : Text

pub record Verification : Type 0 where
  pub is_ok : Bool
  pub reference : Text
  pub gateway_reference : Text
  pub amount : ℤ
  pub status : Text
  pub error : Text
  pub raw : Text

pub record PaymentGateway : Type 0 where
  pub name : Text
  pub initialize : Text → ℤ → Charge
  pub verify : Text → Verification

abbrev pub GetGateway : Type 0
GetGateway = Text → Option PaymentGateway
