-- ===== src/Http.antt =====
-- The crate http, as far as the source reads it: the parts of a parsed `Uri` that may be there.
use bitcoin_adaptor.Base.{ℕ, Option, List}

pub record Uri : Type 0 where
  pub scheme : Option (List ℕ)
  pub authority : Option (List ℕ)
  pub host : Option (List ℕ)
  pub port : Option ℕ
