-- ===== src/Auth/Logout.antt =====
-- What `logout` of src/services/auth.service.ts leaves of a session.
use booking_availability_pla.Shared.{
  ℕ, ◌≡◌, ◌∙◌, sym, ap, refl, String, some, List, [], ◌∷◌, arith, find_first, update_where,
  same_text, Bool-cases, inl, inr,
}
use booking_availability_pla.Model.{RefreshToken}
use booking_availability_pla.Service.{World, Result, ok, follow-eq-ok}
use booking_availability_pla.Auth.Tokens.{Crypto, AuthEnv}
use booking_availability_pla.Auth.Sessions.{
  Stored, has_hash, of_family, revoke_token, revoke_family, include_owner, logout, logout_found,
}
use booking_availability_pla.Auth.Rotation.{live_tokens}

module _ (crypto : Crypto) (env : AuthEnv) where
  pub revoked-live_tokens :
      (id : ℕ) (ts : List RefreshToken)
      → live_tokens crypto env id (update_where (of_family id) revoke_token ts) ≡ 0
  revoked-live_tokens id [] = refl
  revoked-live_tokens id (t ∷ ts) = let rest = revoked-live_tokens id ts in ground arith

  include_owner_state :
      (t : RefreshToken) (w v : World) (s : Stored crypto env)
      → include_owner crypto env t w ≡ (ok s, v)
      → v ≡ w
  unfolding include_owner
  include_owner_state t w v s e = ground arith

  logged_out :
      (now : ℕ) (t : RefreshToken) (w w' : World)
      → logout_found crypto env now (some t) w ≡ (ok tt, w')
      → w'.db.tokens ≡ (revoke_family t.family_id w.db).tokens
  logged_out now t w w' e =
      let (s, v, owner, rest) = follow-eq-ok _ (include_owner crypto env t w) tt w' e in
      let same = include_owner_state t w v s owner in
      ap (λ (o : Result (Unit {0}) × World). o.1.db.tokens) (sym rest)
      ∙ ap (λ (x : World). (revoke_family t.family_id x.db).tokens) same

  -- A logout with a token that is known leaves its session no live token.
  pub logout-live_tokens :
      (now : ℕ) (token : String) (t : RefreshToken) (w w' : World)
      → find_first (has_hash crypto env token) w.db.tokens ≡ some t
      → logout crypto env now token w ≡ (ok tt, w')
      → live_tokens crypto env t.family_id w'.db.tokens ≡ 0
  unfolding logout
  logout-live_tokens now token t w w' found e = elim (Bool-cases (same_text token "")) [
    | inl blank ↦ cc (rw blank at e)
    | inr given ↦
        ap (live_tokens crypto env t.family_id) (logged_out now t w w' (rw (given, found) at e))
        ∙ revoked-live_tokens t.family_id w.db.tokens
  ]
