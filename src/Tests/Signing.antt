-- ===== src/Tests/Signing.antt =====
-- A concrete signing scheme that keeps the laws of `IsCrypto`: a token lists its claims.
use nexus_ai.Base.{
  ℕ, zero, suc, ◌≡◌, refl, ◌&&◌, Option, none, some, [], ◌∷◌, ◌++◌, if◌then◌else◌, length, take,
  drop, leb, ltb, list_beq, list_beq_iff, nat_eq, arith, ap,
}
use nexus_ai.Base.Text.{Text}
use nexus_ai.Auth.Primitives.{Claims, Crypto, IsCrypto}

take-append : (t rest : Text) → take (length t) (t ++ rest) ≡ t
take-append [] rest = refl
take-append (c ∷ t) rest = ap (◌∷◌ c) (take-append t rest)

drop-append : (t rest : Text) → drop (length t) (t ++ rest) ≡ rest
drop-append [] rest = refl
drop-append (c ∷ t) rest = drop-append t rest

abbrev field : Option Text → Text
field none = 0 ∷ []
field (some t) = suc (length t) ∷ t

abbrev read_field : Text → Option Text × Text
read_field [] = (none, [])
read_field (zero ∷ rest) = (none, rest)
read_field (suc n ∷ rest) = (some (take n rest), drop n rest)

read_field-append : (f : Option Text) (rest : Text) → read_field (field f ++ rest) ≡ (f, rest)
read_field-append none rest = refl
read_field-append (some t) rest = rw (take-append, drop-append)

abbrev toy_encode : Claims → Text
toy_encode c = c.iat ∷ c.exp ∷ (field c.sub ++ (field c.kind ++ (field c.jti ++ [])))

abbrev read_claims : ℕ → ℕ → Text → Claims
read_claims iat exp t =
    let (sub, t1) = read_field t in
    let (kind, t2) = read_field t1 in
    let (jti, t3) = read_field t2 in
    record { sub = sub; kind = kind; iat = iat; exp = exp; jti = jti }

abbrev toy_decode : ℕ → Text → Option Claims
toy_decode now [] = none
toy_decode now (iat ∷ []) = none
toy_decode now (iat ∷ exp ∷ t) =
    if leb iat now && ltb now exp then some (read_claims iat exp t) else none

abbrev toy_parse : Text → Option ℕ
toy_parse (u ∷ []) = some u
toy_parse _ = none

abbrev pub toy : Crypto
toy = record {
  encode = toy_encode;
  decode = toy_decode;
  str_uuid = λ u. u ∷ [];
  parse_uuid = toy_parse;
  hash = λ salt password. password;
  verify = λ password hashed. list_beq password hashed;
}

read_claims-encode :
    (c : Claims)
    → read_claims c.iat c.exp (field c.sub ++ (field c.kind ++ (field c.jti ++ []))) ≡ c
read_claims-encode c =
    rw (read_field-append c.sub, read_field-append c.kind, read_field-append c.jti)

toy_stable :
    (token : Text) (x y : Claims) (now later : ℕ)
    → toy_decode now token ≡ some x
    → toy_decode later token ≡ some y
    → x ≡ y
toy_stable [] x y now later h k = ground arith
toy_stable (a ∷ []) x y now later h k = ground arith
toy_stable (a ∷ b ∷ t) x y now later h k = ground arith

pub toy-IsCrypto : IsCrypto toy
toy-IsCrypto = record {
  decode-encode = λ c now h k. ground (arith, read_claims-encode c);
  decode_encoded = λ c x now h. ground (arith, read_claims-encode c);
  decode_stable = toy_stable;
  parse-str = λ u. refl;
  str_nonempty = λ u h. ground arith;
  verify-hash = λ salt p. ground (arith, list_beq_iff p p);
}
