-- ===== src/Services/Auth/LocalJwt.antt =====
-- A concrete encoding of claims that meets the laws asked of PyJWT.
use ai_secure_collaboration.Prelude.{
  ltb→lt, ℕ, ◌≡◌, ◌<◌, ◌≤◌, refl, inl, inr, Bool, true, false, ◌&&◌, [], ◌∷◌, ◌++◌, length, take,
  drop, arith, Str, str_eq, str_eq_iff, is_empty, Option, some, none, if◌then◌else◌, ltb,
  Bool-cases, take-append, drop-append,
}
use ai_secure_collaboration.Services.Auth.{Claims, Jwt}

-- The expiry, the secret, the subject and the type in one text, each with its length.
unfoldable pub encode : Claims → Str → Str
encode c k = c.exp ∷ length k ∷ (k ++ (length c.sub ∷ (c.sub ++ c.token_type)))

unfoldable pub read_claims : ℕ → Str → Option Claims
read_claims exp [] = none
read_claims exp (n ∷ text) =
    some (record { exp = exp; sub = take n text; token_type = drop n text })

unfoldable pub parse : Str → Option Claims
unfolding read_claims
parse (exp ∷ n ∷ text) = read_claims exp (drop n text)
parse _ = none

unfoldable pub is_valid : ℕ → Str → Str → Bool
is_valid now (exp ∷ n ∷ text) k = ltb now exp && str_eq (take n text) k
is_valid now _ k = false

unfoldable pub decode : ℕ → Str → Str → Option Claims
unfolding parse is_valid
decode now token k = if is_valid now token k then parse token else none

pub decode-encode :
    (c : Claims) (k : Str) (now : ℕ) → now < c.exp → decode now (encode c k) k ≡ some c
unfolding decode encode
decode-encode c k now h =
    let rest = length c.sub ∷ (c.sub ++ c.token_type) in
    let before : ltb now c.exp ≡ true = ground arith in
    let valid : is_valid now (encode c k) k ≡ true =
      rw before (rw (take-append k rest) ((str_eq_iff k k).1 refl)) in
    rw valid (
      rw (drop-append k rest)
        (rw (take-append c.sub c.token_type) (rw (drop-append c.sub c.token_type) refl)))

pub decode-expired :
    (c : Claims) (k : Str) (now : ℕ) → c.exp ≤ now → decode now (encode c k) k ≡ none
unfolding decode encode
decode-expired c k now h = elim (Bool-cases (ltb now c.exp)) [
  | inl e ↦ absurd (omega (arith, ltb→lt now c.exp e))
  | inr e ↦ rw e refl
]

pub decode_same :
    (token k : Str) (now later : ℕ) (c c' : Claims)
    → decode now token k ≡ some c
    → decode later token k ≡ some c'
    → c ≡ c'
unfolding decode
decode_same token k now later c c' h h' = ground arith

pub encode-nonempty : (c : Claims) (k : Str) → is_empty (encode c k) ≡ false
unfolding encode is_empty
encode-nonempty c k = refl

abbrev pub local_jwt : Jwt
local_jwt = record {
  encode = encode;
  decode = decode;
  decode-encode = decode-encode;
  decode-expired = decode-expired;
  encode-nonempty = encode-nonempty;
  decode_same = decode_same;
}
