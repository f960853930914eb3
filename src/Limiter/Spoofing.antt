-- ===== src/Limiter/Spoofing.antt =====
-- What a client can do about its address by the headers it sends itself: a proxy appends to them.
use Prim.Native.String.{◌++◌ as ◌<>◌}
use text.Mathlib.TextLemmas.{nil-append, cons-append}
use otl_voice.Prelude.{
  ◌≡◌, refl, true, Option, none, some, List, [], ◌∷◌, ◌++◌, String, arith, Option-cases, inl, inr,
}
use otl_voice.Python.Split.{split, split-append}
use otl_voice.Limiter.ClientIp.{
  IpLibrary, parse_ip, parse_chain, is_trusted_proxy, reversed, first_untrusted, from_chain,
  from_headers, resolve_client_ip,
}

module _ (lib : IpLibrary) (networks : List lib.Network) where
  first_untrusted-append :
      (xs ys : List lib.Address)
      → first_untrusted lib networks (xs ++ ys) ≡ elim (first_untrusted lib networks xs) [
        | none ↦ first_untrusted lib networks ys
        | some a ↦ some a
      ]
  first_untrusted-append [] ys = refl
  first_untrusted-append (x ∷ xs) ys = ground (arith, first_untrusted-append xs ys)

  -- The last untrusted address of a chain is that of its end, whatever stands in front.
  last_untrusted :
      (front chain : List lib.Address) (a : lib.Address)
      → first_untrusted lib networks (reversed lib networks chain) ≡ some a
      → first_untrusted lib networks (reversed lib networks (front ++ chain)) ≡ some a
  last_untrusted [] chain a h = h
  last_untrusted (x ∷ front) chain a h = ground (
    arith,
    first_untrusted-append (reversed lib networks (front ++ chain)) (x ∷ []),
    last_untrusted front chain a h,
  )

  parse_chain-append :
      (xs ys : List String) (chain : List lib.Address)
      → parse_chain lib networks ys ≡ some chain
      → parse_chain lib networks (xs ++ ys)
        ≡ elim (parse_chain lib networks xs) [ none ↦ none | some front ↦ some (front ++ chain) ]
  parse_chain-append [] ys chain h = h
  parse_chain-append (x ∷ xs) ys chain h = ground (arith, parse_chain-append xs ys chain h)

  chain_of :
      (forged honest : String) (chain : List lib.Address)
      → parse_chain lib networks (split b',' honest) ≡ some chain
      → parse_chain lib networks (split b',' (forged <> "," <> honest))
        ≡ elim (parse_chain lib networks (split b',' forged)) [
          | none ↦ none
          | some front ↦ some (front ++ chain)
        ]
  chain_of forged honest chain h =
      rw (cons-append "," "" honest, nil-append honest, split-append "," forged honest)
        (parse_chain-append (split b',' forged) (split b',' honest) chain h)

  ends_untrusted :
      (peer : lib.Address) (front chain : List lib.Address) (a : lib.Address)
      → first_untrusted lib networks (reversed lib networks chain) ≡ some a
      → from_chain lib networks peer (some (front ++ chain)) ≡ some a
  unfolding from_chain
  ends_untrusted peer front chain a h = ground (arith, last_untrusted front chain a h)

  -- Behind a trusted proxy whose own part of X-Forwarded-For ends in trusted proxies after the
  -- address `a`, the client is `a`, whatever addresses the client put in front; if those do not
  -- parse, it is the proxy.
  pub resolve_client_ip-forged :
      (peer_host real_ip : Option String) (forged honest : String) (peer a : lib.Address)
      (chain : List lib.Address)
      → parse_ip lib peer_host ≡ some peer
      → is_trusted_proxy lib networks peer ≡ true
      → parse_chain lib networks (split b',' honest) ≡ some chain
      → first_untrusted lib networks (reversed lib networks chain) ≡ some a
      → resolve_client_ip lib networks peer_host (some (forged <> "," <> honest)) real_ip
        ≡ elim (parse_chain lib networks (split b',' forged)) [
          | none ↦ lib.compressed peer
          | some front ↦ lib.compressed a
        ]
  unfolding resolve_client_ip from_headers from_chain
  resolve_client_ip-forged peer_host real_ip forged honest peer a chain from trusted parts last =
      elim (Option-cases (parse_chain lib networks (split b',' forged))) [
        | inl broken ↦ ground (arith, chain_of forged honest chain parts)
        | inr (front, e) ↦
            ground
              (arith, chain_of forged honest chain parts, ends_untrusted peer front chain a last)
      ]
