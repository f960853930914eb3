-- ===== src/Auth/Password.antt =====
-- The scrypt credentials of backend/core/auth.py: how they are written, read and checked. Base64,
-- UTF-8 and scrypt are parameters.
pub mod Written
pub mod Raises
use Prim.Native.String.{◌++◌ as ◌<>◌}
use otl_voice.Prelude.{
  ℕ, ◌-◌, ◌*◌, Bool, true, false, not, ◌||◌, Option, none, some, List, [], ◌∷◌, String, length, leb,
  ltb, ◌==◌, nat_eq, string_eq, if◌then◌else◌,
}
use otl_voice.Prelude.Int.{ℤ, pos, negsuc}
use otl_voice.Prelude.Result.{Result, ok, err}
use otl_voice.Python.Bytes.{Bytes, bit_and, same_bytes}
use otl_voice.Python.Number.{nat_text, parse_int}
use otl_voice.Python.Split.{split}
use otl_voice.Python.Text.{text_length, is_empty}

-- `base64.urlsafe_b64encode`, the strict `base64.b64decode` with `none` for its errors,
-- `str.encode`, with `none` for its `UnicodeEncodeError`, and `hashlib.scrypt` of a password, a salt,
-- `n`, `r`, `p` and a length, with `none` for a `ValueError`, a `MemoryError` or an `OSError`.
pub record Primitives : Type 0 where
  pub encode64 : Bytes → String
  pub decode64 : String → Option Bytes
  pub utf8 : String → Option Bytes
  pub scrypt : Bytes → Bytes → ℕ → ℕ → ℕ → ℕ → Option Bytes

-- `_PasswordHash`
pub record PasswordHash : Type 0 where
  pub n : ℕ
  pub r : ℕ
  pub p : ℕ
  pub salt : Bytes
  pub digest : Bytes

-- A password behind `not password or len(password.encode("utf-8")) > 1024`: the test holds, or the
-- encoding raises, or the bytes are few enough.
pub data EncodedPassword : Type 0 where
  out_of_range unencodable : EncodedPassword
  in_range : Bytes → EncodedPassword

-- The `UnicodeEncodeError` of a password
pub data EncodeError : Type 0 where
  unicode_error : EncodeError

abbrev pub max_memory : ℕ
max_memory = 256 * 1024 * 1024

-- `_validate_scrypt_parameters` on numbers that are not negative; true is its return. No number up to
-- 1048576 has more than 21 bits.
unfoldable pub validate_scrypt_parameters : ℕ → ℕ → ℕ → Bool
validate_scrypt_parameters n r p = not (
    ltb n 16384
    || ltb 1048576 n
    || not (bit_and 21 n (n - 1) == 0)
    || ltb r 1
    || ltb 16 r
    || ltb p 1
    || ltb 8 p
    || ltb max_memory (128 * n * r))

-- The number, unless it is negative: then `_validate_scrypt_parameters` raises.
natural : Option ℤ → Option ℕ
natural (some (pos n)) = some n
natural (some (negsuc n)) = none
natural none = none

module _ (prims : Primitives) where
  open prims use {encode64, decode64, utf8, scrypt}

  -- `_b64decode`
  unfoldable pub b64decode : String → Option Bytes
  b64decode value = if is_empty value || ltb 256 (text_length value) then none else decode64 value

  -- The check behind the parts: the sizes of the salt and of the digest.
  checked_hash : ℕ → ℕ → ℕ → Option Bytes → Option Bytes → Option PasswordHash
  checked_hash n r p (some salt) (some digest) =
      if ltb (length salt) 16 || not (length digest == 32)
      then none
      else some (record { n = n; r = r; p = p; salt = salt; digest = digest })
  checked_hash n r p (some salt) none = none
  checked_hash n r p none digest = none

  parsed_numbers :
      Option ℕ → Option ℕ → Option ℕ → Option Bytes → Option Bytes → Option PasswordHash
  unfolding checked_hash
  parsed_numbers (some n) (some r) (some p) salt digest =
      if validate_scrypt_parameters n r p then checked_hash n r p salt digest else none
  parsed_numbers none r p salt digest = none
  parsed_numbers (some n) none p salt digest = none
  parsed_numbers (some n) (some r) none salt digest = none

  parsed_parts : List String → Option PasswordHash
  unfolding parsed_numbers natural
  parsed_parts (name ∷ n ∷ r ∷ p ∷ salt ∷ digest ∷ []) =
      if name == "scrypt"
      then parsed_numbers (natural (parse_int n)) (natural (parse_int r)) (natural (parse_int p))
          (b64decode salt) (b64decode digest)
      else none
  parsed_parts parts = none

  -- `_parse_password_hash`; `none` is its `ValueError`.
  unfoldable pub parse_password_hash : String → Option PasswordHash
  unfolding parsed_parts
  parse_password_hash encoded = parsed_parts (split b'$' encoded)

  limited : Option Bytes → EncodedPassword
  limited none = unencodable
  limited (some bytes) = if ltb 1024 (length bytes) then out_of_range else in_range bytes

  unfoldable pub encoded_password : String → EncodedPassword
  unfolding limited
  encoded_password password = if is_empty password then out_of_range else limited (utf8 password)

  -- `f"scrypt${n}${r}${p}${salt}${digest}"`
  abbrev pub written : PasswordHash → String
  written h =
      "scrypt"
      <> ("$"
          <> (nat_text h.n
              <> ("$"
                  <> (nat_text h.r
                      <> ("$"
                          <> (nat_text h.p
                              <> ("$" <> (encode64 h.salt <> ("$" <> encode64 h.digest)))))))))

  -- What is written for the digest.
  written_hash : ℕ → ℕ → ℕ → Bytes → Option Bytes → Option String
  written_hash n r p salt none = none
  written_hash n r p salt (some digest) =
      some (written (record { n = n; r = r; p = p; salt = salt; digest = digest }))

  hashed : ℕ → ℕ → ℕ → Bytes → EncodedPassword → Option String
  unfolding written_hash
  hashed n r p salt out_of_range = none
  hashed n r p salt unencodable = none
  hashed n r p salt (in_range bytes) =
      if validate_scrypt_parameters n r p
      then written_hash n r p salt (scrypt bytes salt n r p 32)
      else none

  -- `hash_scrypt_password` with the salt of `os.urandom`; `none` is an exception.
  unfoldable pub hash_scrypt_password : String → ℕ → ℕ → ℕ → Bytes → Option String
  unfolding hashed
  hash_scrypt_password password n r p salt = hashed n r p salt (encoded_password password)

  same_candidate : Option Bytes → Bytes → Bool
  same_candidate none digest = false
  same_candidate (some candidate) digest = same_bytes candidate digest

  verified : PasswordHash → EncodedPassword → Result EncodeError Bool
  unfolding same_candidate
  verified h out_of_range = ok false
  verified h unencodable = err unicode_error
  verified h (in_range bytes) =
      ok (same_candidate (scrypt bytes h.salt h.n h.r h.p (length h.digest)) h.digest)

  -- `_verify_scrypt`
  unfoldable pub verify_scrypt : String → PasswordHash → Result EncodeError Bool
  unfolding verified
  verify_scrypt password h = verified h (encoded_password password)
