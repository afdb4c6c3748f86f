-- ===== src/Auth/Primitives.antt =====
-- The libraries behind app/core/security.py (PyJWT, Argon2) and the standard `uuid`.
use nexus_ai.Base.{ℕ, ◌≤◌, ◌<◌, ◌≡◌, ◌≢◌, true, Bool, Option, some, []}
use nexus_ai.Base.Text.{Text}

-- The payload of a token: the claims `sub`, `type`, `iat`, `exp` and `jti`.
pub record Claims : Type 0 where
  pub sub : Option Text
  pub kind : Option Text
  pub iat : ℕ
  pub exp : ℕ
  pub jti : Option Text

pub record Crypto : Type 0 where
  -- `jwt.encode`, and `jwt.decode` at a time, `none` for a `PyJWTError`
  pub encode : Claims → Text
  pub decode : ℕ → Text → Option Claims
  -- `str(u)` and `uuid.UUID(s)`, `none` for a `ValueError`
  pub str_uuid : ℕ → Text
  pub parse_uuid : Text → Option ℕ
  -- the hash of a password under a salt, and `verify(password, hash)`
  pub hash : ℕ → Text → Text
  pub verify : Text → Text → Bool

-- What the libraries document.
pub record IsCrypto (c : Crypto) : Type 0 where
  -- a token is read back while it is valid
  pub decode-encode :
      (claims : Claims) (now : ℕ)
      → claims.iat ≤ now
      → now < claims.exp
      → c.decode now (c.encode claims) ≡ some claims
  -- whenever a token is read, its payload is the one that was signed
  pub decode_encoded :
      (claims x : Claims) (now : ℕ) → c.decode now (c.encode claims) ≡ some x → x ≡ claims
  pub decode_stable :
      (token : Text) (x y : Claims) (now later : ℕ)
      → c.decode now token ≡ some x
      → c.decode later token ≡ some y
      → x ≡ y
  pub parse-str : (u : ℕ) → c.parse_uuid (c.str_uuid u) ≡ some u
  pub str_nonempty : (u : ℕ) → c.str_uuid u ≢ []
  pub verify-hash : (salt : ℕ) (password : Text) → c.verify password (c.hash salt password) ≡ true
