-- ===== src/Cli.antt =====
-- src/cli.rs: the reading and validation of the configuration. The file system and the parsers of
-- serde and http are arguments.
pub mod Proxy
mod Tests
use bitcoin_adaptor.Base.{
  ℕ, Bool, true, false, ◌||◌, Option, none, some, List, Result, ok, err, if◌then◌else◌,
}
use bitcoin_adaptor.Http.{Uri}
use bitcoin_adaptor.Config.{Config}
use bitcoin_adaptor.Stream.{IoError}

-- The two texts of a failed validation are two constructors.
pub data CliError : Type 0 where
  io : IoError → CliError
  deserialize : List ℕ → CliError
  unparsed_socks_proxy incomplete_socks_proxy : CliError

-- `File::open`, `serde_json::from_reader` and `parse::<Uri>`
pub record Parsers : Type 0 where
  pub open_file : List ℕ → Result (List ℕ) IoError
  pub from_reader : List ℕ → Result Config (List ℕ)
  pub parse_uri : List ℕ → Option Uri

abbrev pub is_none : {A : Type 0} → Option A → Bool
is_none none = true
is_none (some x) = false

-- The check of a proxy that was given.
unfoldable pub validate_proxy : Parsers → List ℕ → Config → Result Config CliError
validate_proxy parsers socks_proxy config = elim (parsers.parse_uri socks_proxy) [
  | none ↦ err unparsed_socks_proxy
  | some uri ↦
      if is_none uri.scheme || is_none uri.host || is_none uri.port
      then err incomplete_socks_proxy
      else ok config
]

unfoldable pub get_config : Parsers → List ℕ → Result Config CliError
unfolding validate_proxy
get_config parsers path = elim (parsers.open_file path) [
  | err e ↦ err (io e)
  | ok file ↦ elim (parsers.from_reader file) [
    | err e ↦ err (deserialize e)
    | ok config ↦ elim config.socks_proxy [
      | none ↦ ok config
      | some socks_proxy ↦ validate_proxy parsers socks_proxy config
    ]
  ]
]
