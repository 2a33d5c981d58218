-- ===== src/Cli/Tests.antt =====
-- Tests of the reading of the configuration, over a parser that takes every text for the host and the
-- authority.
use bitcoin_adaptor.Base.{◌≡◌, refl, arith, none, some, [], ◌∷◌, ok, err}
use bitcoin_adaptor.Config.{Config, default_config}
use bitcoin_adaptor.Stream.{unexpected_eof}
use bitcoin_adaptor.Stream.Task.{Network}
use bitcoin_adaptor.Cli.{Parsers, get_config, validate_proxy, incomplete_socks_proxy}
use bitcoin_adaptor.Cli.Proxy.{HasAuthority, Attempted, get_config-connect}

abbrev proxied : Config
proxied = record default_config { socks_proxy = some (7 ∷ []) }

abbrev parsers : Parsers
parsers = record {
  open_file = λ path. ok path;
  from_reader = λ file. ok proxied;
  parse_uri = λ text.
      some (record { scheme = some []; authority = some text; host = some text; port = some 80 });
}

accepted : get_config parsers [] ≡ ok proxied
unfolding get_config validate_proxy
accepted = refl

without_port :
    get_config
      (record parsers {
        parse_uri = λ text.
            some
              (record { scheme = some []; authority = some text; host = some text; port = none });
      })
      []
    ≡ err incomplete_socks_proxy
unfolding get_config validate_proxy
without_port = refl

abbrev net : Network
net = record {
  direct = some (err unexpected_eof);
  parse_uri = parsers.parse_uri;
  proxied = λ authority. some (ok tt);
  address_type_not_supported = 4;
}

parsers-HasAuthority : HasAuthority parsers.parse_uri
parsers-HasAuthority text uri q h = ground (arith, q, h)

get_config-connect_example : Attempted parsers.parse_uri net unexpected_eof (some (7 ∷ []))
get_config-connect_example =
    get_config-connect parsers net [] proxied unexpected_eof parsers-HasAuthority refl accepted refl
