-- ===== src/Limiter/ClientIp.antt =====
-- `_parse_ip`, `_is_trusted_proxy` and `resolve_client_ip` of backend/core/limiter.py. The addresses
-- and networks of Python's `ipaddress` are a parameter.
use otl_voice.Prelude.{
  ℕ, Bool, true, ◌&&◌, Option, none, some, List, [], ◌∷◌, ◌++◌, code, String, any, ◌==◌, nat_eq,
  ltb, if◌then◌else◌,
}
use otl_voice.Python.Text.{strip}
use otl_voice.Python.Split.{split, cut, count}

-- `ip_address`, `none` for its `ValueError`; `ip_network` without `strict`; `version` of both;
-- `address in network`; and `compressed`.
pub record IpLibrary : Type 1 where
  pub Address : Type 0
  pub Network : Type 0
  pub ip_address : String → Option Address
  pub ip_network : String → Option Network
  pub version : Address → ℕ
  pub network_version : Network → ℕ
  pub contains : Network → Address → Bool
  pub compressed : Address → String

module _ (lib : IpLibrary) where
  -- What stands behind the bracket must be empty or a port.
  port_or_nothing : String → Bool
  port_or_nothing String.[] = true
  port_or_nothing (String.◌∷◌ c s) = code c == b':'

  bracketed : String × String → Option lib.Address
  unfolding port_or_nothing
  bracketed (inside, remainder) = if port_or_nothing remainder then lib.ip_address inside else none

  -- `candidate.rsplit(":", 1)[0]` where there is one colon, and the text itself elsewhere.
  without_port : Option (String × String) → String → String
  without_port none candidate = candidate
  without_port (some (host, port)) candidate =
      if count b':' candidate == 1 && ltb 0 (count b'.' candidate) then host else candidate

  parse_candidate : String → Option lib.Address
  unfolding bracketed without_port
  parse_candidate String.[] = none
  parse_candidate (String.◌∷◌ c s) =
      let candidate = String.◌∷◌ c s in
      let plain = lib.ip_address (without_port (cut b':' candidate) candidate) in
      if code c == b'['
      then elim (cut b']' s) [ none ↦ plain | some parts ↦ bracketed parts ]
      else plain

  unfoldable pub parse_ip : Option String → Option lib.Address
  unfolding parse_candidate
  parse_ip none = none
  parse_ip (some value) = parse_candidate (strip value)

  module _ (networks : List lib.Network) where
    unfoldable pub is_trusted_proxy : lib.Address → Bool
    is_trusted_proxy address =
        any
          (λ network.
            lib.version address == lib.network_version network && lib.contains network address)
          networks

    -- `[_parse_ip(value) for value in ...]`, or `none` if one of them is `None`
    abbrev pub parse_chain : List String → Option (List lib.Address)
    parse_chain [] = some []
    parse_chain (value ∷ values) = elim (parse_ip (some value)) [
      | none ↦ none
      | some address ↦ elim (parse_chain values) [
        | none ↦ none
        | some chain ↦ some (address ∷ chain)
      ]
    ]

    abbrev pub reversed : List lib.Address → List lib.Address
    reversed [] = []
    reversed (address ∷ chain) = reversed chain ++ (address ∷ [])

    -- `for address in ...: if not _is_trusted_proxy(address, networks): return ...`
    abbrev pub first_untrusted : List lib.Address → Option lib.Address
    first_untrusted [] = none
    first_untrusted (address ∷ chain) =
        if is_trusted_proxy address then first_untrusted chain else some address

    -- `parsed_chain[0]`, if there is one
    abbrev first_of : List lib.Address → Option lib.Address
    first_of [] = none
    first_of (address ∷ chain) = some address

    -- What the forwarded chain returns; `none` when the code goes on behind it.
    unfoldable pub from_chain : lib.Address → Option (List lib.Address) → Option lib.Address
    from_chain peer none = some peer
    from_chain peer (some chain) = elim (first_untrusted (reversed chain)) [
      | some address ↦ some address
      | none ↦ first_of chain
    ]

    from_real_ip : lib.Address → Option String → lib.Address
    from_real_ip peer real_ip = elim (parse_ip real_ip) [ none ↦ peer | some address ↦ address ]

    unfoldable pub from_headers : lib.Address → Option String → Option String → lib.Address
    unfolding from_chain from_real_ip
    from_headers peer none real_ip = from_real_ip peer real_ip
    from_headers peer (some forwarded_for) real_ip =
        elim (from_chain peer (parse_chain (split b',' forwarded_for))) [
          | some address ↦ address
          | none ↦ from_real_ip peer real_ip
        ]

    unfoldable pub resolve_client_ip : Option String → Option String → Option String → String
    unfolding from_headers
    resolve_client_ip peer_host forwarded_for real_ip = elim (parse_ip peer_host) [
      | none ↦ "unknown"
      | some peer ↦
          if is_trusted_proxy peer
          then lib.compressed (from_headers peer forwarded_for real_ip)
          else lib.compressed peer
    ]

-- Everything that a run computes with, for the tests.
unfoldable pub run_client_ip : Unit {0}
unfolding resolve_client_ip is_trusted_proxy parse_ip strip cut count split
run_client_ip = tt
