-- ===== src/Auth/Reuse.antt =====
-- Reuse of a refresh token under src/services/auth.service.ts: the answer, and what is left of the session.
use booking_availability_pla.Shared.{
  ℕ, ◌≡◌, refl, String, true, false, not, none, some, [], ◌∷◌, ◌++◌, arith, ◌==◌, ==_iff, keep,
  find_first, find_first_sound, find_first-update, find_first-new, keep-update, All-every,
  Bool-cases, inl, inr, same_text,
}
use booking_availability_pla.Errors.{app, unauthorized_error}
use booking_availability_pla.Model.{RefreshToken, RefreshTokenFamily, User}
use booking_availability_pla.Service.{World, ok, err}
use booking_availability_pla.Auth.Tokens.{Crypto, AuthEnv}
use booking_availability_pla.Auth.Sessions.{
  SessionDraw, Stored, AuthTokens, token_by_id, family_by_id, of_family, revoke_token, new_token,
  has_hash, revoke_family, refresh_access_token,
}
use booking_availability_pla.Auth.Rotation.{
  replace_by, rotated, rotated-found, check_refresh_sound, check_refresh-reuse, refresh-eq-ok,
  live_tokens,
}
use booking_availability_pla.Auth.Logout.{revoked-live_tokens}

module _ (crypto : Crypto) (env : AuthEnv) where
  -- A session that has been revoked with every token in it; the other sessions, their tokens, and all
  -- else that is stored or queued, are as they were.
  pub record IsRevoked (family : ℕ) (w v : World) : Type 0 where
    pub row : RefreshTokenFamily
    pub row_found : find_first (λ (f : RefreshTokenFamily). f.id == family) v.db.families ≡ some row
    pub row_revoked : row.revoked ≡ true
    pub none_live : live_tokens crypto env family v.db.tokens ≡ 0
    pub tokens_kept :
        keep (λ (t : RefreshToken). not (t.family_id == family)) v.db.tokens
        ≡ keep (λ (t : RefreshToken). not (t.family_id == family)) w.db.tokens
    pub families_kept :
        keep (λ (f : RefreshTokenFamily). not (f.id == family)) v.db.families
        ≡ keep (λ (f : RefreshTokenFamily). not (f.id == family)) w.db.families
    pub rest_kept :
        v ≡ record w { db = record w.db { tokens = v.db.tokens; families = v.db.families } }

  token_dropped :
      (family : ℕ) (t : RefreshToken)
      → of_family family t ≡ true
      → not (t.family_id == family) ≡ false
  token_dropped family t h = ground arith

  family_dropped :
      (family : ℕ) (f : RefreshTokenFamily)
      → family_by_id family f ≡ true
      → not (f.id == family) ≡ false
  family_dropped family f h = ground arith

  revoke_family-IsRevoked :
      (family : ℕ) (f : RefreshTokenFamily) (w : World)
      → find_first (family_by_id family) w.db.families ≡ some f
      → IsRevoked family w (record w { db = revoke_family family w.db })
  revoke_family-IsRevoked family f w found = record {
    row = record f { revoked = true };
    row_found = rw (find_first_sound (family_by_id family) w.db.families f found) at (
        find_first-update (family_by_id family) (family_by_id family)
          (λ (x : RefreshTokenFamily). record x { revoked = true }) w.db.families f (λ y. refl)
          found);
    row_revoked = refl;
    none_live = revoked-live_tokens crypto env family w.db.tokens;
    tokens_kept =
        keep-update _ _ revoke_token w.db.tokens
          (All-every _ w.db.tokens (λ t h. (token_dropped family t h, token_dropped family t h)));
    families_kept =
        keep-update _ _ _ w.db.families (
          All-every _ w.db.families
            (λ f h. (family_dropped family f h, family_dropped family f h)));
    rest_kept = refl;
  }

  family-id : (id : ℕ) (f : RefreshTokenFamily) → family_by_id id f ≡ true → f.id ≡ id
  family-id id f h = ground arith

  -- The refusal, and the state that it leaves.
  reuse_refused :
      (draw : SessionDraw) (token : String) (w : World) (t : RefreshToken) (f : RefreshTokenFamily)
      (u : User)
      → same_text token "" ≡ false
      → find_first (has_hash crypto env token) w.db.tokens ≡ some t
      → find_first (family_by_id t.family_id) w.db.families ≡ some f
      → find_first (λ (u : User). u.id == f.user_id) w.db.users ≡ some u
      → f.revoked ≡ false
      → t.revoked ≡ true
      → refresh_access_token crypto env draw token w ≡ (
        err (app (unauthorized_error "Refresh token reuse detected")),
        record w { db = revoke_family t.family_id w.db },
      )
  unfolding refresh_access_token
  reuse_refused draw token w t f u given e ef eu live used =
      let same =
        family-id t.family_id f (find_first_sound (family_by_id t.family_id) w.db.families f ef) in
      rw (check_refresh-reuse crypto env draw.now token w t f u given e ef eu live used)
        (rw same refl)

  -- A refresh with a revoked token of a session that is not revoked is refused as reuse, and although it
  -- throws the session is revoked with every token in it, and nothing else is changed. The token's session
  -- and its user are stored.
  pub refresh_access_token-IsRevoked :
      (draw : SessionDraw) (token : String) (w : World) (t : RefreshToken) (f : RefreshTokenFamily)
      (u : User)
      → same_text token "" ≡ false
      → find_first (has_hash crypto env token) w.db.tokens ≡ some t
      → find_first (family_by_id t.family_id) w.db.families ≡ some f
      → find_first (λ (u : User). u.id == f.user_id) w.db.users ≡ some u
      → f.revoked ≡ false
      → t.revoked ≡ true
      → (v : World) × (refresh_access_token crypto env draw token w
          ≡ (err (app (unauthorized_error "Refresh token reuse detected")), v))
        × IsRevoked t.family_id w v
  refresh_access_token-IsRevoked draw token w t f u given e ef eu live used = (
    record w { db = revoke_family t.family_id w.db },
    reuse_refused draw token w t f u given e ef eu live used,
    revoke_family-IsRevoked t.family_id f w ef,
  )

  -- The row of a token that a refresh gave out.
  abbrev pub IsReplacement : SessionDraw → ℕ → World → Type 0
  IsReplacement draw family v =
      (t : RefreshToken) × (find_first (λ (x : RefreshToken). x.id == draw.token_id) v.db.tokens
        ≡ some t)
      × (t.token_hash ≡ crypto.hash_token draw.refresh_token)
      × (t.family_id ≡ family)
      × (t.revoked ≡ true)

  IsReplacement-revoke_family :
      (draw : SessionDraw) (family : ℕ) (w : World) (t : RefreshToken)
      → find_first (token_by_id draw.token_id) w.db.tokens ≡ some t
      → t.token_hash ≡ crypto.hash_token draw.refresh_token
      → t.family_id ≡ family
      → IsReplacement draw family (record w { db = revoke_family family w.db })
  IsReplacement-revoke_family draw family w t found hash same =
      let hit : of_family family t ≡ true = (==_iff t.family_id family).1 same in
      (
        revoke_token t,
        rw hit at (
            find_first-update (token_by_id draw.token_id) (of_family family) revoke_token
              w.db.tokens t (λ y. refl) found),
        hash,
        same,
        refl,
      )

  IsReplacement-rotated :
      (draw : SessionDraw) (t : RefreshToken) (w : World)
      → find_first (token_by_id draw.token_id) w.db.tokens ≡ none
      → IsReplacement draw t.family_id (record w {
        db = revoke_family t.family_id (record w.db { tokens = rotated crypto env draw t w });
      })
  IsReplacement-rotated draw t w free =
      let fresh = new_token crypto env draw t.family_id in
      let v : World = record w { db = record w.db { tokens = rotated crypto env draw t w } } in
      let found =
        find_first-update (token_by_id draw.token_id) (token_by_id t.id) (replace_by draw.token_id)
          (w.db.tokens ++ fresh ∷ []) fresh (λ y. refl)
          (find_first-new (token_by_id draw.token_id) w.db.tokens fresh
            ((==_iff draw.token_id draw.token_id).1 refl) free) in
      elim (Bool-cases (token_by_id t.id fresh)) [
        | inl own ↦
            IsReplacement-revoke_family draw t.family_id v (replace_by draw.token_id fresh)
              (rw own at found) refl refl
        | inr other ↦
            IsReplacement-revoke_family draw t.family_id v fresh (rw other at found) refl refl
      ]

  -- A refresh token works once: when a refresh has returned, the same token is refused as reused, by any
  -- later draw; the session that it belonged to is then revoked with every token in it, and so is the
  -- replacement that the refresh gave out, which is found in that session.
  pub refresh_once :
      (draw draw' : SessionDraw) (token : String) (w w' : World) (r : AuthTokens)
      → refresh_access_token crypto env draw token w ≡ (ok r, w')
      → (s : Stored crypto env) × (v : World) × (find_first (has_hash crypto env token) w.db.tokens
          ≡ some s.token)
        × (find_first (family_by_id s.token.family_id) w.db.families ≡ some s.family)
        × (refresh_access_token crypto env draw' token w'
            ≡ (err (app (unauthorized_error "Refresh token reuse detected")), v))
        × IsRevoked s.token.family_id w' v
        × IsReplacement draw s.token.family_id v
  refresh_once draw draw' token w w' r e =
      let (s, checked, free, after) = refresh-eq-ok crypto env draw token w w' r e in
      let (found, family, user, _, unrevoked, _, _, given) =
        check_refresh_sound crypto env draw.now token w s w checked in
      rw after (
        s,
        _,
        found,
        family,
        reuse_refused draw' token
            (record w { db = record w.db { tokens = rotated crypto env draw s.token w } })
            (replace_by draw.token_id s.token) s.family s.user given
            (rotated-found crypto env draw token s.token w found) family user unrevoked refl,
        revoke_family-IsRevoked s.token.family_id s.family _ family,
        IsReplacement-rotated draw s.token w free,
      )
