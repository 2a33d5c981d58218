-- ===== src/Cli/Proxy.antt =====
-- src/cli.rs and src/stream.rs: what the validation of the proxy gives to the connecting of streams.
use bitcoin_adaptor.Base.{
  ℕ, ◌≡◌, inl, inr, refl, false, Option, none, some, List, ok, err, arith, Option-cases,
  Result-cases,
}
use bitcoin_adaptor.Http.{Uri}
use bitcoin_adaptor.Config.{Config}
use bitcoin_adaptor.Stream.{IoError, io}
use bitcoin_adaptor.Stream.Task.{Network, connect, connect_through, proxy_result}
use bitcoin_adaptor.Cli.{Parsers, is_none, validate_proxy, get_config}

-- A host is part of an authority, in every `Uri` that is parsed.
abbrev pub HasAuthority : (List ℕ → Option Uri) → Type 0
HasAuthority parse =
    (text : List ℕ) (uri : Uri)
    → parse text ≡ some uri
    → is_none uri.host ≡ false
    → is_none uri.authority ≡ false

-- What a stream does once the direct attempt failed with `e`.
abbrev pub Attempted : (List ℕ → Option Uri) → Network → IoError → Option (List ℕ) → Type 0
Attempted parse net e none = connect net none ≡ err (io e)
Attempted parse net e (some proxy) =
    (uri : Uri) × (authority : List ℕ) × (parse proxy ≡ some uri)
    × (uri.authority ≡ some authority)
    × (connect net (some proxy) ≡ proxy_result (net.proxied authority))

is_none-some : {A : Type 0} (o : Option A) → is_none o ≡ false → (x : A) × (o ≡ some x)
is_none-some none h = absurd (ground (arith, h))
is_none-some (some x) h = (x, refl)

-- A validated proxy parses, and has a host.
validate_proxy-host :
    (parsers : Parsers) (proxy : List ℕ) (config config' : Config)
    → validate_proxy parsers proxy config ≡ ok config'
    → (config ≡ config')
      × (uri : Uri) × (parsers.parse_uri proxy ≡ some uri)
      × (is_none uri.host ≡ false)
unfolding validate_proxy
validate_proxy-host parsers proxy config config' e = elim (Option-cases (parsers.parse_uri proxy)) [
  | inl q ↦ absurd (ground (arith, rw (validate_proxy, q) at e))
  | inr (uri, q) ↦ (
    ground (arith, rw (validate_proxy, q) at e),
    uri,
    q,
    ground (arith, rw (validate_proxy, q) at e),
  )
]

-- The proxy of a configuration that is accepted parses, and has a host.
get_config-host :
    (parsers : Parsers) (path : List ℕ) (config : Config) (proxy : List ℕ)
    → get_config parsers path ≡ ok config
    → config.socks_proxy ≡ some proxy
    → (uri : Uri) × (parsers.parse_uri proxy ≡ some uri) × (is_none uri.host ≡ false)
unfolding get_config
get_config-host parsers path config proxy accepted given =
    elim (Result-cases (parsers.open_file path)) [
      | inr (x, q) ↦ absurd (ground (arith, rw (get_config, q) at accepted))
      | inl (file, q) ↦ elim (Result-cases (parsers.from_reader file)) [
        | inr (x, r) ↦ absurd (ground (arith, rw (get_config, q, r) at accepted))
        | inl (config', r) ↦ elim (Option-cases config'.socks_proxy) [
          | inl p ↦
              let same : config' ≡ config = ground (arith, rw (get_config, q, r, p) at accepted) in
              absurd (ground (arith, p, rw (← same) at given))
          | inr (proxy', p) ↦
              let (same, uri, parsed, host) =
                validate_proxy-host parsers proxy' config' config
                  (rw (get_config, q, r, p) at accepted) in
              let same_proxy : proxy' ≡ proxy = ground (arith, p, rw (← same) at given) in
              (uri, rw (← same_proxy) parsed, host)
        ]
      ]
    ]

-- Where a host is part of an authority and the streams parse texts as the configuration does: under
-- a configuration that `get_config` accepts, a stream whose direct attempt failed reports that
-- failure if no proxy is given, and else makes its second attempt at the authority that the proxy
-- parses to, whose outcome is the stream's. So the two errors in `connect` for a proxy that does not
-- parse do not occur.
pub get_config-connect :
    (parsers : Parsers) (net : Network) (path : List ℕ) (config : Config) (e : IoError)
    → HasAuthority parsers.parse_uri
    → net.parse_uri ≡ parsers.parse_uri
    → get_config parsers path ≡ ok config
    → net.direct ≡ some (err e)
    → Attempted parsers.parse_uri net e config.socks_proxy
unfolding connect
get_config-connect parsers net path config e has same_parser accepted failed =
    attempted config.socks_proxy refl
  where
    attempted : (o : Option (List ℕ)) → config.socks_proxy ≡ o → Attempted parsers.parse_uri net e o
    attempted none q = rw (connect, failed) refl
    attempted (some proxy) q =
        let (uri, parsed, host) = get_config-host parsers path config proxy accepted q in
        let (authority, a) = is_none-some uri.authority (has proxy uri parsed host) in
        let parsed' : net.parse_uri proxy ≡ some uri = rw (same_parser) parsed in
        (uri, authority, parsed, a, rw (connect, failed, connect_through, parsed', a) refl)
