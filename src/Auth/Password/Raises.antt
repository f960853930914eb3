-- ===== src/Auth/Password/Raises.antt =====
-- When `_verify_scrypt` of backend/core/auth.py raises.
use otl_voice.Prelude.{
  ◌≡◌, ◌⊎◌, refl, Bool, false, none, some, String, arith, Option-cases, Bool-cases, inl, inr, ltb,
  length,
}
use otl_voice.Prelude.Result.{ok, err}
use otl_voice.Python.Bytes.{Bytes}
use otl_voice.Python.Text.{is_empty}
use otl_voice.Auth.Password.{
  Primitives, PasswordHash, EncodedPassword, out_of_range, unencodable, in_range, unicode_error,
  encoded_password, limited, verified, verify_scrypt,
}

limited-in_range :
    (prims : Primitives) (bytes : Bytes)
    → (limited prims (some bytes) ≡ out_of_range) ⊎ (limited prims (some bytes) ≡ in_range bytes)
unfolding limited
limited-in_range prims bytes = elim (Bool-cases (ltb 1024 (length bytes))) [
  | inl long ↦ inl (rw long refl)
  | inr short ↦ inr (rw short refl)
]

module _ (prims : Primitives) (password : String) (h : PasswordHash) where
  verified-answers :
      (e : EncodedPassword)
      → (e ≡ unencodable) ⊎ ((matches : Bool) × (verified prims h e ≡ ok matches))
  unfolding verified
  verified-answers out_of_range = inr (false, refl)
  verified-answers unencodable = inl refl
  verified-answers (in_range bytes) = inr (_, refl)

  unencodable-utf8 :
      encoded_password prims password ≡ unencodable
      → (is_empty password ≡ false) × (prims.utf8 password ≡ none)
  unfolding encoded_password limited
  unencodable-utf8 h = elim (Bool-cases (is_empty password)) [
    | inl empty ↦ absurd (cc (rw empty at h))
    | inr full ↦ (
      full,
      elim (Option-cases (prims.utf8 password)) [
        | inl lost ↦ lost
        | inr (bytes, read) ↦ elim (limited-in_range prims bytes) [
          | inl long ↦ absurd (ground (arith, h, full, read, long))
          | inr short ↦ absurd (ground (arith, h, full, read, short))
        ]
      ],
    )
  ]

  -- It answers, or it raises for a password that is not empty and that UTF-8 has no bytes for.
  pub verify_scrypt-cases :
      ((matches : Bool) × (verify_scrypt prims password h ≡ ok matches))
      ⊎ ((verify_scrypt prims password h ≡ err unicode_error)
          × (is_empty password ≡ false)
          × (prims.utf8 password ≡ none))
  unfolding verify_scrypt verified
  verify_scrypt-cases = elim (verified-answers (encoded_password prims password)) [
    | inr answer ↦ inl answer
    | inl lost ↦
        let (full, none_found) = unencodable-utf8 lost in inr (rw lost refl, full, none_found)
  ]
