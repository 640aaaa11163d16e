-- ===== src/Auth/Rotation.antt =====
-- Refresh tokens under src/services/auth.service.ts: one use each, and one live token for a session.
use booking_availability_pla.Shared.{
  ℕ, ◌≡◌, refl, sym, ap, subst, ◌∙◌, String, true, false, not, ◌&&◌, none, some, List, [], ◌∷◌,
  ◌++◌, arith, leb, ◌==◌, find_first, update_where, if◌then◌else◌, find_first-append,
  find_first-update, find_first-key, Unique, Unique-append_new, Absent-of_none, sum_by,
  sum_by-update, sum_by-append, Option-cases, inl, inr, same_text,
}
use booking_availability_pla.Errors.{app, other, unauthorized_error}
use booking_availability_pla.Model.{RefreshToken, RefreshTokenFamily, User}
use booking_availability_pla.Service.{World, ok, err, follow, pure, follow-eq-ok}
use booking_availability_pla.Auth.Tokens.{Crypto, AuthEnv}
use booking_availability_pla.Auth.Sessions.{
  SessionDraw, Stored, token_by_id, family_by_id, new_token, has_hash, rotate, check_refresh,
  refresh_access_token, include_owner, refuse_reuse, revoke_family, AuthTokens,
}

abbrev pub token_key : RefreshToken → ℕ
token_key t = t.id

abbrev pub replace_by : ℕ → RefreshToken → RefreshToken
replace_by id t = record t { revoked = true; replaced_by_id = some id }

==_refl : (n : ℕ) → (n == n) ≡ true
==_refl n = ground arith

pub token_by_id-key : (id : ℕ) (t : RefreshToken) → token_by_id id t ≡ true → token_key t ≡ id
token_by_id-key id t h = ground arith

pub token_by_id-hit : (id : ℕ) (t : RefreshToken) → token_key t ≡ id → token_by_id id t ≡ true
token_by_id-hit id t h = ground arith

module _ (crypto : Crypto) (env : AuthEnv) where
  module _ (draw : SessionDraw) (stored : RefreshToken) (w : World) where
    -- The tokens after a rotation.
    abbrev pub rotated : List RefreshToken
    rotated =
        update_where (token_by_id stored.id) (replace_by draw.token_id)
          (w.db.tokens ++ new_token crypto env draw stored.family_id ∷ [])

    pub rotate-done :
        find_first (token_by_id draw.token_id) w.db.tokens ≡ none
        → rotate crypto env draw stored w
          ≡ (ok tt, record w { db = record w.db { tokens = rotated } })
    unfolding rotate
    rotate-done e = rw e

    pub rotate-clash :
        (t : RefreshToken)
        → find_first (token_by_id draw.token_id) w.db.tokens ≡ some t
        → rotate crypto env draw stored w ≡ (err (other "Unique constraint failed"), w)
    unfolding rotate
    rotate-clash t e = rw e

  module _ (now : ℕ) (token : String) (w : World) where
    pub check_refresh_state :
        (s : Stored crypto env) (w' : World)
        → check_refresh crypto env now token w ≡ (ok s, w')
        → w' ≡ w
    unfolding check_refresh include_owner refuse_reuse
    check_refresh_state s w' e = ground arith

    -- What a refresh has established when it comes to its transaction.
    pub check_refresh_sound :
        (s : Stored crypto env) (w' : World)
        → check_refresh crypto env now token w ≡ (ok s, w')
        → (find_first (has_hash crypto env token) w.db.tokens ≡ some s.token)
          × (find_first (family_by_id s.token.family_id) w.db.families ≡ some s.family)
          × (find_first (λ (u : User). u.id == s.family.user_id) w.db.users ≡ some s.user)
          × (s.token.revoked ≡ false)
          × (s.family.revoked ≡ false)
          × (leb s.token.expires_at now ≡ false)
          × (s.user.is_active ≡ true)
          × (same_text token "" ≡ false)
    unfolding check_refresh include_owner refuse_reuse
    check_refresh_sound s w' e = ground arith

    -- A revoked token of a session that is not revoked: the call throws, after it has revoked the session.
    pub check_refresh-reuse :
        (t : RefreshToken) (f : RefreshTokenFamily) (u : User)
        → same_text token "" ≡ false
        → find_first (has_hash crypto env token) w.db.tokens ≡ some t
        → find_first (family_by_id t.family_id) w.db.families ≡ some f
        → find_first (λ (u : User). u.id == f.user_id) w.db.users ≡ some u
        → f.revoked ≡ false
        → t.revoked ≡ true
        → check_refresh crypto env now token w ≡ (
          err (app (unauthorized_error "Refresh token reuse detected")),
          record w { db = revoke_family f.id w.db },
        )
    unfolding check_refresh include_owner refuse_reuse
    check_refresh-reuse t f u n e ef eu live used =
        rw (n, e) (rw (ef) (rw eu (rw live (rw used refl))))

  rotate-eq-ok :
      (draw : SessionDraw) (stored : RefreshToken) (w v w' : World) (a r : AuthTokens)
      → v ≡ w
      → follow (λ _. pure a) (rotate crypto env draw stored v) ≡ (ok r, w')
      → (find_first (token_by_id draw.token_id) w.db.tokens ≡ none)
        × (w' ≡ record w { db = record w.db { tokens = rotated draw stored w } })
  rotate-eq-ok draw stored w v w' a r same e =
      elim (Option-cases (find_first (token_by_id draw.token_id) w.db.tokens)) [
        | inl free ↦ (free, ap (λ o. o.1) (sym (rw (same, rotate-done draw stored w free) at e)))
        | inr (t, taken) ↦ cc (rw (same, rotate-clash draw stored w t taken) at e)
      ]

  -- A refresh that returns passed the checks, and left the tokens as its rotation does.
  pub refresh-eq-ok :
      (draw : SessionDraw) (token : String) (w w' : World) (r : AuthTokens)
      → refresh_access_token crypto env draw token w ≡ (ok r, w')
      → (s : Stored crypto env) × (check_refresh crypto env draw.now token w ≡ (ok s, w))
        × (find_first (token_by_id draw.token_id) w.db.tokens ≡ none)
        × (w' ≡ record w { db = record w.db { tokens = rotated draw s.token w } })
  unfolding refresh_access_token
  refresh-eq-ok draw token w w' r e =
      let (s, v, checked, rest) =
        follow-eq-ok _ (check_refresh crypto env draw.now token w) r w' e in
      let same : v ≡ w = check_refresh_state draw.now token w s v checked in
      let (free, after) = rotate-eq-ok draw s.token w v w' _ r same rest in
      (s, checked ∙ (λ i. (ok s, same i)), free, after)

  -- The row of a token that was exchanged is found revoked afterwards.
  pub rotated-found :
      (draw : SessionDraw) (token : String) (t : RefreshToken) (w : World)
      → find_first (has_hash crypto env token) w.db.tokens ≡ some t
      → find_first (has_hash crypto env token) (rotated draw t w)
        ≡ some (replace_by draw.token_id t)
  rotated-found draw token t w e =
      let found =
        find_first-update (has_hash crypto env token) (token_by_id t.id) (replace_by draw.token_id)
          (w.db.tokens ++ new_token crypto env draw t.family_id ∷ []) t (λ y. refl)
          (find_first-append (has_hash crypto env token) w.db.tokens _ t e) in
      rw (==_refl t.id) at found

  abbrev pub is_live : ℕ → RefreshToken → ℕ
  is_live family t = if t.family_id == family && not t.revoked then 1 else 0

  -- How many tokens of a session still work.
  abbrev pub live_tokens : ℕ → List RefreshToken → ℕ
  live_tokens family tokens = sum_by (is_live family) tokens

  pub rotated-live_tokens :
      (draw : SessionDraw) (t : RefreshToken) (w : World) (family : ℕ)
      → Unique token_key w.db.tokens
      → find_first (token_by_id draw.token_id) w.db.tokens ≡ none
      → find_first (token_by_id t.id) w.db.tokens ≡ some t
      → t.revoked ≡ false
      → live_tokens family (rotated draw t w) ≡ live_tokens family w.db.tokens
  rotated-live_tokens draw t w family unique free found live =
      let fresh = new_token crypto env draw t.family_id in
      let absent =
        Absent-of_none token_key draw.token_id (token_by_id draw.token_id) w.db.tokens
          (token_by_id-hit draw.token_id) free in
      let moved =
        sum_by-update token_key t.id (token_by_id t.id) (token_by_id-key t.id) (is_live family)
          (replace_by draw.token_id) (w.db.tokens ++ fresh ∷ []) t
          (Unique-append_new token_key w.db.tokens fresh unique absent)
          (find_first-append (token_by_id t.id) w.db.tokens (fresh ∷ []) t found) in
      let grown = sum_by-append (is_live family) w.db.tokens (fresh ∷ []) in ground arith

  -- An exchange takes one live token and gives one: each session has as many of them as before, where
  -- tokens have unique identifiers.
  pub refresh-live_tokens :
      (draw : SessionDraw) (token : String) (w w' : World) (r : AuthTokens) (family : ℕ)
      → Unique token_key w.db.tokens
      → refresh_access_token crypto env draw token w ≡ (ok r, w')
      → live_tokens family w'.db.tokens ≡ live_tokens family w.db.tokens
  refresh-live_tokens draw token w w' r family unique e =
      let (s, checked, free, after) = refresh-eq-ok draw token w w' r e in
      let sound = check_refresh_sound draw.now token w s w checked in
      subst (λ (v : World). live_tokens family v.db.tokens ≡ live_tokens family w.db.tokens)
        (sym after)
        (rotated-live_tokens draw s.token w family unique free
          (find_first-key token_key (has_hash crypto env token) w.db.tokens s.token unique sound.0)
          sound.3)
