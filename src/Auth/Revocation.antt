-- ===== src/Auth/Revocation.antt =====
-- A refresh token that was exchanged or revoked stays revoked, whatever is called later.
use nexus_ai.Base.{
  ℕ, ◌≡◌, true, Option, some, List, [], ◌∷◌, ◌++◌, find?, any, is_some, arith, Option-cases,
  Bool-cases, inl, inr, Result-cases,
}
use nexus_ai.Base.Text.{Text}
use nexus_ai.Config.{Settings}
use nexus_ai.Database.{Db, RefreshToken}
use nexus_ai.Auth.Primitives.{Crypto}
use nexus_ai.Auth.{
  is_token, revoke_rows, get_active, decode_refresh, check_refresh, issue_tokens, register,
  authenticate, login, refresh, logout,
}

-- The row of the `jti` is there, and is revoked.
abbrev pub IsRevoked : ℕ → List RefreshToken → Type 0
IsRevoked jti ts =
    (t : RefreshToken) × (find? (is_token jti) ts ≡ some t) × (is_some t.revoked_at ≡ true)

pub find?-revoke_self :
    (now jti : ℕ) (ts : List RefreshToken) (t : RefreshToken)
    → find? (is_token jti) ts ≡ some t
    → find? (is_token jti) (revoke_rows now jti ts) ≡ some (record t { revoked_at = some now })
unfolding revoke_rows
find?-revoke_self now jti [] t h = ground arith
find?-revoke_self now jti (x ∷ ts) t h = ground (arith, find?-revoke_self now jti ts t)

pub IsRevoked-revoke :
    (now jti j : ℕ) (ts : List RefreshToken) → IsRevoked j ts → IsRevoked j (revoke_rows now jti ts)
unfolding revoke_rows
IsRevoked-revoke now jti j [] (t, h, r) = ground arith
IsRevoked-revoke now jti j (x ∷ ts) (t, h, r) = elim (Bool-cases (is_token j x)) [
  | inl here ↦ elim (Bool-cases (is_token jti x)) [
    | inl hit ↦ (record x { revoked_at = some now }, ground arith, ground arith)
    | inr miss ↦ (x, ground arith, ground arith)
  ]
  | inr later ↦
      let (t', h', r') = IsRevoked-revoke now jti j ts (t, ground arith, r) in
      (t', ground arith, r')
]

pub IsRevoked-append :
    (j : ℕ) (ts more : List RefreshToken) → IsRevoked j ts → IsRevoked j (ts ++ more)
IsRevoked-append j [] more (t, h, r) = ground arith
IsRevoked-append j (x ∷ ts) more (t, h, r) = elim (Bool-cases (is_token j x)) [
  | inl here ↦ (x, ground arith, ground arith)
  | inr later ↦
      let (t', h', r') = IsRevoked-append j ts more (t, ground arith, r) in (t', ground arith, r')
]

-- A call of the service: its time, what it draws at random, and its arguments.
pub data Call : Type 0 where
  register_call : ℕ → ℕ → Text → Text → Option Text → Call
  login_call : ℕ → ℕ → Text → Text → Call
  refresh_call : ℕ → ℕ → Text → Call
  logout_call : ℕ → Text → Call

module _ {F : Type 0} (crypto : Crypto) (settings : Settings F) where
  unfoldable pub after_call : Call → Db F → Db F
  after_call (register_call salt new_id email password full_name) db =
      (register crypto salt new_id email password full_name db).1
  after_call (login_call now jti email password) db =
      (login crypto settings now jti email password db).1
  after_call (refresh_call now jti token) db = (refresh crypto settings now jti token db).1
  after_call (logout_call now token) db = (logout crypto now token db).1

  unfoldable pub after_calls : List Call → Db F → Db F
  unfolding after_call
  after_calls [] db = db
  after_calls (c ∷ cs) db = after_calls cs (after_call c db)

  IsRevoked-issue :
      (now jti user j : ℕ) (before db : Db F)
      → IsRevoked j before.refresh_tokens
      → IsRevoked j db.refresh_tokens
      → IsRevoked j (issue_tokens crypto settings now jti user before db).1.refresh_tokens
  unfolding issue_tokens
  IsRevoked-issue now jti user j before db h k =
      elim (Bool-cases (any (is_token jti) db.refresh_tokens)) [
        | inl taken ↦ rw taken h
        | inr free ↦ rw free (IsRevoked-append j db.refresh_tokens _ k)
      ]

  register_keeps :
      (salt new_id : ℕ) (email password : Text) (full_name : Option Text) (db : Db F)
      → (register crypto salt new_id email password full_name db).1.refresh_tokens
        ≡ db.refresh_tokens
  unfolding register
  register_keeps salt new_id email password full_name db = ground arith

  IsRevoked-logout :
      (now : ℕ) (token : Text) (db : Db F) (j : ℕ)
      → IsRevoked j db.refresh_tokens
      → IsRevoked j (logout crypto now token db).1.refresh_tokens
  unfolding logout
  IsRevoked-logout now token db j h = elim (Result-cases (decode_refresh crypto now token)) [
    | inr (x, e) ↦ rw (e, logout) h
    | inl ((subject, jti), e) ↦ elim (Option-cases (get_active db now jti)) [
      | inl gone ↦ rw (e, gone, logout) h
      | inr (stored, found) ↦
          rw (e, found, logout) (IsRevoked-revoke now stored.jti j db.refresh_tokens h)
    ]
  ]

  after_call-IsRevoked :
      (c : Call) (db : Db F) (j : ℕ)
      → IsRevoked j db.refresh_tokens
      → IsRevoked j (after_call c db).refresh_tokens
  unfolding after_call login refresh
  after_call-IsRevoked (register_call salt new_id email password full_name) db j h =
      rw (register_keeps salt new_id email password full_name db) h
  after_call-IsRevoked (login_call now jti email password) db j h =
      elim (Result-cases (authenticate crypto db email password)) [
        | inl (user, e) ↦ rw (e, after_call) (IsRevoked-issue now jti user.id j db db h h)
        | inr (x, e) ↦ rw (e, after_call) h
      ]
  after_call-IsRevoked (refresh_call now jti token) db j h =
      elim (Result-cases (check_refresh crypto now token db)) [
        | inl ((user, old), e) ↦
            rw (e, after_call)
              (IsRevoked-issue now jti user j db
                (record db { refresh_tokens = revoke_rows now old db.refresh_tokens }) h
                (IsRevoked-revoke now old j db.refresh_tokens h))
        | inr (x, e) ↦ rw (e, after_call) h
      ]
  after_call-IsRevoked (logout_call now token) db j h = IsRevoked-logout now token db j h

  pub after_calls-IsRevoked :
      (cs : List Call) (db : Db F) (j : ℕ)
      → IsRevoked j db.refresh_tokens
      → IsRevoked j (after_calls cs db).refresh_tokens
  unfolding after_calls
  after_calls-IsRevoked [] db j h = h
  after_calls-IsRevoked (c ∷ cs) db j h =
      after_calls-IsRevoked cs (after_call c db) j (after_call-IsRevoked c db j h)
