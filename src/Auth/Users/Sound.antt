-- ===== src/Auth/Users/Sound.antt =====
-- What the verifier that `from_mapping` builds answers.
use otl_voice.Prelude.{
  ◌≡◌, ◌⊎◌, refl, true, false, Option, none, some, List, [], ◌∷◌, String, arith, All, all, ◌==◌,
  Option-cases, Bool-cases, inl, inr, string_eq, if◌then◌else◌,
}
use otl_voice.Prelude.Dict.{Dict, lookup, insert, lookup-insert}
use otl_voice.Prelude.Result.{Result, ok, err, >>=-eq-ok}
use otl_voice.Python.Text.{strip, is_empty}
use otl_voice.Python.Value.{Value, dict_of}
use otl_voice.Auth.Password.{Primitives, PasswordHash, parse_password_hash, verify_scrypt}
use otl_voice.Auth.Password.Raises.{verify_scrypt-cases}
use otl_voice.Auth.Users.{
  AuthVerification, misconfigured, employee_text, required_text, AuthUser, parse_user,
  complete_user, collect_users, users_of, parse_auth_users, LocalVerifier, is_parsed, values,
  from_mapping, checked_user, with_hash, VerifyError, unencodable_password, hash_of, verify_local,
  dummy_password_hash,
}

-- The employee number and the user name are not empty.
abbrev pub IsNamed : AuthUser → Type 0
IsNamed user = (is_empty user.employee_id ≡ false) × (is_empty user.username ≡ false)

complete_user-IsNamed :
    (employee_id username password_hash : String) (user : AuthUser)
    → complete_user employee_id username password_hash ≡ ok user
    → IsNamed user
unfolding complete_user
complete_user-IsNamed employee_id username password_hash user h = ground (arith, h)

module _ (repr : Value → String) where
  parse_user-IsNamed :
      (identifier : String) (raw : Value) (user : AuthUser)
      → parse_user repr identifier raw ≡ ok user
      → IsNamed user
  unfolding parse_user
  parse_user-IsNamed identifier (Value.str password) user h =
      complete_user-IsNamed identifier identifier password user h
  parse_user-IsNamed identifier (Value.obj fields) user h =
      let (employee_id, e, h1) =
        >>=-eq-ok (employee_text repr identifier (lookup "employeeId" (dict_of fields))) _ h in
      let (username, e', h2) =
        >>=-eq-ok (required_text (ok identifier) (lookup "username" (dict_of fields))) _ h1 in
      let (password, e'', h3) =
        >>=-eq-ok (required_text (err misconfigured) (lookup "password" (dict_of fields))) _ h2 in
      complete_user-IsNamed employee_id (strip username) password user h3
  parse_user-IsNamed identifier Value.null user h = cc
  parse_user-IsNamed identifier (Value.bool b) user h = cc
  parse_user-IsNamed identifier (Value.int n) user h = cc
  parse_user-IsNamed identifier (Value.real d) user h = cc
  parse_user-IsNamed identifier (Value.arr vs) user h = cc

  module _ (casefold : String → String) where
    accepted-IsNamed :
        (identifier : String) (raw : Value) (user : AuthUser)
        → (if is_empty identifier then err misconfigured else parse_user repr identifier raw)
          ≡ ok user
        → IsNamed user
    accepted-IsNamed identifier raw user h = elim (Bool-cases (is_empty identifier)) [
      | inl empty ↦ absurd (ground (arith, h, empty))
      | inr full ↦ parse_user-IsNamed identifier raw user (ground (arith, h, full))
    ]

    collect_users-IsNamed :
        (items : Dict Value) (users final : Dict AuthUser)
        → ((k : String) (u : AuthUser) → lookup k users ≡ some u → IsNamed u)
        → collect_users repr casefold users items ≡ ok final
        → (k : String) (u : AuthUser) → lookup k final ≡ some u
        → IsNamed u
    unfolding collect_users
    collect_users-IsNamed [] users final known h k u found =
        let same : users ≡ final = ground (arith, h) in known k u (rw same found)
    collect_users-IsNamed ((raw, value) ∷ items) users final known h k u found =
        let (user, e, rest) =
          >>=-eq-ok
            (if is_empty (strip raw) then err misconfigured else parse_user repr (strip raw) value)
            _ h in
        let normalized = casefold (strip raw) in
        let free : lookup normalized users ≡ none = elim (Option-cases (lookup normalized users)) [
          | inl absent ↦ absent
          | inr (other, taken) ↦ absurd (ground (arith, rest, taken))
        ] in
        collect_users-IsNamed items (insert normalized user users) final
          (λ j w at_j. elim (Bool-cases (normalized == j)) [
            | inl same ↦
                let w_user : user ≡ w =
                  ground (arith, at_j, same, lookup-insert normalized j user users) in
                rw (← w_user) (accepted-IsNamed (strip raw) value user e)
            | inr other ↦
                known j w (ground (arith, at_j, other, lookup-insert normalized j user users))
          ])
          (rw free at rest) k u found

    users_of-collects :
        (document : Value) (users : Dict AuthUser)
        → users_of repr casefold document ≡ ok users
        → (items : Dict Value) × (collect_users repr casefold [] items ≡ ok users)
    unfolding users_of
    users_of-collects (Value.obj fields) users h = (dict_of fields, ground (arith, h))
    users_of-collects Value.null users h = cc
    users_of-collects (Value.bool b) users h = cc
    users_of-collects (Value.int n) users h = cc
    users_of-collects (Value.real d) users h = cc
    users_of-collects (Value.str s) users h = cc
    users_of-collects (Value.arr vs) users h = cc

    parse_auth_users-IsNamed :
        (loaded : Option Value) (users : Dict AuthUser)
        → parse_auth_users repr casefold loaded ≡ ok users
        → (k : String) (u : AuthUser) → lookup k users ≡ some u
        → IsNamed u
    unfolding parse_auth_users lookup
    parse_auth_users-IsNamed none users h k u found = cc
    parse_auth_users-IsNamed (some document) users h k u found =
        let (items, collected) = users_of-collects document users (ground (arith, h)) in
        collect_users-IsNamed items [] users (λ j w nothing. cc) collected k u found

lookup-values :
    (P : AuthUser → Type 0) (k : String) (users : Dict AuthUser) (user : AuthUser)
    → All P (values users)
    → lookup k users ≡ some user
    → P user
unfolding lookup
lookup-values P k [] user h found = cc
lookup-values P k ((name, u) ∷ users) user (first, others) found = elim (Bool-cases (name == k)) [
  | inl here ↦ let same : u ≡ user = ground (arith, found, here) in rw (← same) first
  | inr later ↦ lookup-values P k users user others (ground (arith, found, later))
]

module _ (prims : Primitives) (casefold : String → String) where
  -- What an answer rests on: a complete user under the identifier, whose hash the password matches.
  abbrev pub Backed : Dict AuthUser → String → String → Option AuthVerification → Type 0
  Backed users identifier credential none = Unit
  Backed users identifier credential (some answer) =
      (user : AuthUser) × (h : PasswordHash) × (lookup (casefold (strip identifier)) users
        ≡ some user)
      × (parse_password_hash prims user.password_hash ≡ some h)
      × (verify_scrypt prims credential h ≡ ok true)
      × (answer ≡ record { employee_id = user.employee_id; username = user.username })
      × IsNamed user

  -- That the hash of a user is read.
  abbrev IsReadable : AuthUser → Type 0
  IsReadable user = (h : PasswordHash) × (parse_password_hash prims user.password_hash ≡ some h)

  is_parsed-IsReadable : (user : AuthUser) → is_parsed prims user ≡ true → IsReadable user
  unfolding is_parsed
  is_parsed-IsReadable user h = elim (Option-cases (parse_password_hash prims user.password_hash)) [
    | inl broken ↦ absurd (ground (arith, h, broken))
    | inr read ↦ read
  ]

  all_parsed-IsReadable :
      (users : List AuthUser) → all (is_parsed prims) users ≡ true → All IsReadable users
  all_parsed-IsReadable [] h = tt
  all_parsed-IsReadable (user ∷ users) h = (
    is_parsed-IsReadable user (ground (arith, h)),
    all_parsed-IsReadable users (ground (arith, h)),
  )

  from_mapping-read :
      (repr : Value → String) (loaded : Option Value) (v : LocalVerifier)
      → from_mapping prims casefold repr loaded ≡ ok v
      → (parse_auth_users repr casefold loaded ≡ ok v.users) × All IsReadable (values v.users)
  unfolding from_mapping
  from_mapping-read repr loaded v h =
      let (users, parsed, rest) = >>=-eq-ok (parse_auth_users repr casefold loaded) _ h in
      let readable : all (is_parsed prims) (values users) ≡ true =
        elim (Bool-cases (all (is_parsed prims) (values users))) [
          | inl each ↦ each
          | inr broken ↦ absurd (ground (arith, rest, broken))
        ] in
      elim (Option-cases (parse_password_hash prims dummy_password_hash)) [
        | inl lost ↦ absurd (ground (arith, rest, lost, readable))
        | inr (dummy, e) ↦
            let same : users ≡ v.users = ground (arith, rest, e, readable) in
            rw (← same) (parsed, all_parsed-IsReadable (values users) readable)
      ]

  -- The password has no UTF-8 encoding, and `verify` raises.
  abbrev pub Unencodable : String → Result VerifyError (Option AuthVerification) → Type 0
  Unencodable credential answer =
      (is_empty credential ≡ false)
      × (prims.utf8 credential ≡ none)
      × (answer ≡ err unencodable_password)

  -- The verifier that `from_mapping` builds raises only for a password that is not empty and has no
  -- UTF-8 encoding. An answer it gives is the employee number and the name, neither empty, of the user
  -- under the stripped and folded identifier, whose hash the password matches.
  pub verify_local_sound :
      (repr : Value → String) (loaded : Option Value) (v : LocalVerifier)
      (identifier credential : String)
      → from_mapping prims casefold repr loaded ≡ ok v
      → let result = verify_local prims casefold v identifier credential in
        Unencodable credential result
        ⊎ ((answer : Option AuthVerification) × (result ≡ ok answer)
            × Backed v.users identifier credential answer)
  unfolding verify_local hash_of with_hash checked_user
  verify_local_sound repr loaded v identifier credential built =
      let (parsed, readable) = from_mapping-read repr loaded v built in
      elim (Option-cases (lookup (casefold (strip identifier)) v.users)) [
        | inl unknown ↦ elim (verify_scrypt-cases prims credential v.dummy_hash) [
          | inl (matches, answered) ↦ inr (none, rw (unknown, answered) refl, tt)
          | inr (raised, full, lost) ↦ inl (full, lost, rw (unknown, raised) refl)
        ]
        | inr (user, found) ↦
            let named = parse_auth_users-IsNamed repr casefold loaded v.users parsed _ user found in
            let (h, read) = lookup-values IsReadable _ v.users user readable found in
            let given : AuthVerification = record {
              employee_id = user.employee_id;
              username = user.username;
            } in
            elim (verify_scrypt-cases prims credential h) [
              | inl (true, matches) ↦ inr (
                some given,
                rw (found, read, matches) refl,
                (user, h, found, read, matches, refl, named),
              )
              | inl (false, fails) ↦ inr (none, rw (found, read, fails) refl, tt)
              | inr (raised, full, lost) ↦ inl (full, lost, rw (found, read, raised) refl)
            ]
      ]
