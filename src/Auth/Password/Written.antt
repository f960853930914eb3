-- ===== src/Auth/Password/Written.antt =====
-- That a written credential is read back, and what it then accepts.
use Prim.Native.String.{◌++◌ as ◌<>◌}
use text.Mathlib.TextLemmas.{nil-append, cons-append}
use otl_voice.Prelude.{
  ℕ, ◌+◌, ◌*◌, ◌/◌, ◌≤◌, ◌<◌, ◌≡◌, refl, Bool, true, false, not, ◌&&◌, ◌||◌, some, [], ◌∷◌, String,
  arith, length, leb, ltb, ◌==◌, nat_eq, Option-cases, inl, inr, ap, sym, ◌∙◌,
}
use otl_voice.Prelude.Result.{ok}
use otl_voice.Python.Bytes.{Bytes, same_bytes, same_bytes-eq, same_bytes_refl}
use otl_voice.Python.Number.{nat_text, is_digit}
use otl_voice.Python.Number.Printed.{nat_text-digits, parse_int-nat_text}
use otl_voice.Python.Split.{split, split_first, split_whole}
use otl_voice.Python.Text.{text_length, is_empty-long, all_chars, all_chars-imp}
use otl_voice.Auth.Password.{
  Primitives, PasswordHash, validate_scrypt_parameters, b64decode, parse_password_hash, in_range,
  out_of_range, unencodable, EncodedPassword, encoded_password, limited, hashed, written_hash,
  verified, written, hash_scrypt_password, verify_scrypt, natural, checked_hash, parsed_numbers,
  parsed_parts, same_candidate,
}

-- The alphabet of `urlsafe_b64encode`.
abbrev pub is_base64 : ℕ → Bool
is_base64 c =
    (leb b'A' c && leb c b'Z')
    || (leb b'a' c && leb c b'z')
    || is_digit c
    || c == b'-'
    || c == b'_'
    || c == b'='

-- What Python's documentation says of `urlsafe_b64encode` of some bytes, and of `b64decode` of what it
-- gives.
pub record Encodes (prims : Primitives) (bytes : Bytes) : Type 0 where
  pub decoded : prims.decode64 (prims.encode64 bytes) ≡ some bytes
  pub alphabet : all_chars is_base64 (prims.encode64 bytes) ≡ true
  pub encoded_size : text_length (prims.encode64 bytes) ≡ 4 * ((length bytes + 2) / 3)

no_dollar :
    (p : ℕ → Bool) (s : String)
    → ((c : ℕ) → p c ≡ true → (c == b'$') ≡ false)
    → all_chars p s ≡ true
    → all_chars (λ c. not (c == b'$')) s ≡ true
no_dollar p s apart h =
    all_chars-imp p (λ c. not (c == b'$')) s (λ c in_p. ground (arith, apart c)) h

-- The parts in front of a dollar.
part :
    (a b : String)
    → all_chars (λ c. not (c == b'$')) a ≡ true
    → split b'$' (a <> ("$" <> b)) ≡ a ∷ split b'$' b
part a b h = rw (cons-append "$" "" b, nil-append) (split_first "$" a b h)

number_part :
    (n : ℕ) (b : String) → split b'$' (nat_text n <> ("$" <> b)) ≡ nat_text n ∷ split b'$' b
number_part n b =
    part (nat_text n) b
      (no_dollar is_digit (nat_text n) (λ c digit. ground arith) (nat_text-digits n))

module _ (prims : Primitives) where
  base64_part :
      (bytes : Bytes)
      → Encodes prims bytes
      → all_chars (λ c. not (c == b'$')) (prims.encode64 bytes) ≡ true
  base64_part bytes laws =
      no_dollar is_base64 (prims.encode64 bytes) (λ c in_alphabet. ground arith) laws.alphabet

  split-written :
      (h : PasswordHash)
      → Encodes prims h.salt
      → Encodes prims h.digest
      → split b'$' (written prims h)
        ≡ "scrypt"
          ∷ nat_text h.n
          ∷ nat_text h.r
          ∷ nat_text h.p
          ∷ prims.encode64 h.salt
          ∷ prims.encode64 h.digest
          ∷ []
  split-written h salt digest =
      part "scrypt" _ refl
      ∙ ap (λ parts. "scrypt" ∷ parts)
          (number_part h.n _
            ∙ ap (λ parts. nat_text h.n ∷ parts)
                (number_part h.r _
                  ∙ ap (λ parts. nat_text h.r ∷ parts)
                      (number_part h.p _
                        ∙ ap (λ parts. nat_text h.p ∷ parts)
                            (part (prims.encode64 h.salt) _ (base64_part h.salt salt)
                              ∙ ap (λ parts. prims.encode64 h.salt ∷ parts)
                                  (split_whole b'$' (prims.encode64 h.digest)
                                    (base64_part h.digest digest))))))

  b64decode-encode64 :
      (bytes : Bytes)
      → Encodes prims bytes
      → 0 < length bytes
      → length bytes ≤ 192
      → b64decode prims (prims.encode64 bytes) ≡ some bytes
  unfolding b64decode
  b64decode-encode64 bytes laws full short =
      let size = laws.encoded_size in
      let room : ltb 256 (text_length (prims.encode64 bytes)) ≡ false = ground (arith, size) in
      let named = is_empty-long (prims.encode64 bytes) (omega (arith, size)) in
      rw (named, room) laws.decoded

  -- A credential whose numbers are in range and whose salt and digest have their sizes is read back.
  parse_password_hash-written :
      (h : PasswordHash)
      → validate_scrypt_parameters h.n h.r h.p ≡ true
      → 16 ≤ length h.salt
      → length h.salt ≤ 192
      → length h.digest ≡ 32
      → Encodes prims h.salt
      → Encodes prims h.digest
      → parse_password_hash prims (written prims h) ≡ some h
  unfolding parse_password_hash parsed_parts parsed_numbers checked_hash natural
  parse_password_hash-written h valid salted short sized salt_laws digest_laws =
      let salt = b64decode-encode64 h.salt salt_laws (omega arith) short in
      let digest = b64decode-encode64 h.digest digest_laws (omega arith) (omega arith) in
      rw
        (
          split-written h salt_laws digest_laws,
          parse_int-nat_text h.n,
          parse_int-nat_text h.r,
          parse_int-nat_text h.p,
          salt,
          digest,
          valid,
        )
        (ground (arith, salted, sized))

  hashed-written :
      (password : EncodedPassword) (n r p : ℕ) (salt : Bytes) (text : String)
      → hashed prims n r p salt password ≡ some text
      → (bytes : Bytes) × (digest : Bytes) × (password ≡ in_range bytes)
        × (prims.scrypt bytes salt n r p 32 ≡ some digest)
        × (validate_scrypt_parameters n r p ≡ true)
        × (written prims (record { n = n; r = r; p = p; salt = salt; digest = digest }) ≡ text)
  unfolding hashed written_hash
  hashed-written out_of_range n r p salt text wrote = cc
  hashed-written unencodable n r p salt text wrote = cc
  hashed-written (in_range bytes) n r p salt text wrote =
      elim (Option-cases (prims.scrypt bytes salt n r p 32)) [
        | inl fails ↦ absurd (ground (arith, wrote, fails))
        | inr (digest, e) ↦
            (bytes, digest, refl, e, ground (arith, wrote), ground (arith, wrote, e))
      ]

  verified-candidate :
      (password : EncodedPassword) (h : PasswordHash)
      → verified prims h password ≡ ok true
      → (bytes : Bytes) × (password ≡ in_range bytes)
        × (prims.scrypt bytes h.salt h.n h.r h.p (length h.digest) ≡ some h.digest)
  unfolding verified same_candidate
  verified-candidate out_of_range h matched = cc
  verified-candidate unencodable h matched = cc
  verified-candidate (in_range bytes) h matched =
      elim (Option-cases (prims.scrypt bytes h.salt h.n h.r h.p (length h.digest))) [
        | inl fails ↦ absurd (ground (arith, matched, fails))
        | inr (digest, e) ↦
            let same : same_bytes digest h.digest ≡ true = ground (arith, matched, e) in
            (bytes, refl, e ∙ ap some (same_bytes-eq digest h.digest same))
      ]

  encoded_password-utf8 :
      (password : String) (bytes : Bytes)
      → encoded_password prims password ≡ in_range bytes
      → prims.utf8 password ≡ some bytes
  unfolding encoded_password limited
  encoded_password-utf8 password bytes h = elim (Option-cases (prims.utf8 password)) [
    | inl fails ↦ absurd (ground (arith, h, fails))
    | inr (found, e) ↦ e ∙ ap some (ground (arith, h, e))
  ]

  -- With a salt of 16 bytes, base64 as documented and digests of 32 bytes, `hash_scrypt_password`
  -- writes a credential that `_parse_password_hash` reads, with which `_verify_scrypt` accepts the
  -- password, and another password only if scrypt gives both one digest.
  pub hash_scrypt_password-verified :
      (password : String) (n r p : ℕ) (salt : Bytes) (text : String)
      → length salt ≡ 16
      → Encodes prims salt
      → ((bytes digest : Bytes)
          → prims.utf8 password ≡ some bytes
          → prims.scrypt bytes salt n r p 32 ≡ some digest
          → (length digest ≡ 32) × Encodes prims digest)
      → hash_scrypt_password prims password n r p salt ≡ some text
      → (h : PasswordHash) × (parse_password_hash prims text ≡ some h)
        × (verify_scrypt prims password h ≡ ok true)
        × ((other : String)
            → verify_scrypt prims other h ≡ ok true
            → (bytes : Bytes) × (others : Bytes) × (prims.utf8 password ≡ some bytes)
              × (prims.utf8 other ≡ some others)
              × (prims.scrypt others salt n r p 32 ≡ prims.scrypt bytes salt n r p 32))
  unfolding verify_scrypt verified same_candidate hash_scrypt_password
  hash_scrypt_password-verified password n r p salt text sixteen salt_laws digests wrote =
      let (bytes, digest, password_is, e, valid, same) =
        hashed-written (encoded_password prims password) n r p salt text wrote in
      let h : PasswordHash = record { n = n; r = r; p = p; salt = salt; digest = digest } in
      let read = encoded_password-utf8 password bytes password_is in
      let (sized, digest_laws) = digests bytes digest read e in
      (
        h,
        ap (parse_password_hash prims) (sym same)
            ∙ parse_password_hash-written h valid (omega (arith, sixteen)) (omega (arith, sixteen))
                sized salt_laws digest_laws,
        rw (password_is, sized, e) (ap ok (same_bytes_refl digest)),
        λ other matched.
            let (others, other_is, candidate) =
              verified-candidate (encoded_password prims other) h matched in
            (
              bytes,
              others,
              read,
              encoded_password-utf8 other others other_is,
              rw sized at candidate ∙ sym e,
            ),
      )
