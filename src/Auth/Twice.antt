-- ===== src/Auth/Twice.antt =====
-- Two calls of `refreshAccessToken` of src/services/auth.service.ts with one token, both past their
-- checks before either runs its transaction.
use booking_availability_pla.Shared.{
  ◌+◌, ◌≡◌, refl, false, none, some, [], ◌∷◌, ◌++◌, arith, find_first, find_first-update,
  find_first-append, Unique, Unique-append_new, Unique-update, Absent-of_none, sum_by-update,
  sum_by-append,
}
use booking_availability_pla.Model.{RefreshToken}
use booking_availability_pla.Service.{World, ok}
use booking_availability_pla.Auth.Tokens.{Crypto, AuthEnv}
use booking_availability_pla.Auth.Sessions.{SessionDraw, token_by_id, new_token, rotate}
use booking_availability_pla.Auth.Rotation.{
  token_key, replace_by, rotated, rotate-done, is_live, live_tokens, rotated-live_tokens,
  token_by_id-key, token_by_id-hit,
}

module _ (crypto : Crypto) (env : AuthEnv) (draw : SessionDraw) (t : RefreshToken) (w : World) where
  abbrev after : World
  after = record w { db = record w.db { tokens = rotated crypto env draw t w } }

  module _ (unique : Unique token_key w.db.tokens)
      (free : find_first (token_by_id draw.token_id) w.db.tokens ≡ none)
      (found : find_first (token_by_id t.id) w.db.tokens ≡ some t) where
    after-Unique : Unique token_key after.db.tokens
    after-Unique =
        Unique-update token_key (token_by_id t.id) (replace_by draw.token_id)
          (w.db.tokens ++ new_token crypto env draw t.family_id ∷ []) (λ x. refl)
          (Unique-append_new token_key w.db.tokens _ unique (
            Absent-of_none token_key draw.token_id (token_by_id draw.token_id) w.db.tokens
              (token_by_id-hit draw.token_id) free))

    after_found : find_first (token_by_id t.id) after.db.tokens ≡ some (replace_by draw.token_id t)
    after_found =
        let e =
          find_first-update (token_by_id t.id) (token_by_id t.id) (replace_by draw.token_id)
            (w.db.tokens ++ new_token crypto env draw t.family_id ∷ []) t (λ y. refl)
            (find_first-append (token_by_id t.id) w.db.tokens _ t found) in
        rw (token_by_id-hit t.id t refl) at e

    rotated_again-live_tokens :
        (draw' : SessionDraw)
        → find_first (token_by_id draw'.token_id) after.db.tokens ≡ none
        → live_tokens crypto env t.family_id (rotated crypto env draw' t after)
          ≡ live_tokens crypto env t.family_id after.db.tokens + 1
    rotated_again-live_tokens draw' free' =
        let fresh = new_token crypto env draw' t.family_id in
        let moved =
          sum_by-update token_key t.id (token_by_id t.id) (token_by_id-key t.id)
            (is_live crypto env t.family_id) (replace_by draw'.token_id)
            (after.db.tokens ++ fresh ∷ []) (replace_by draw.token_id t)
            (Unique-append_new token_key after.db.tokens fresh after-Unique (
              Absent-of_none token_key draw'.token_id (token_by_id draw'.token_id) after.db.tokens
                (token_by_id-hit draw'.token_id) free'))
            (find_first-append (token_by_id t.id) after.db.tokens (fresh ∷ []) _ after_found) in
        let grown = sum_by-append (is_live crypto env t.family_id) after.db.tokens (fresh ∷ []) in
        ground arith

    -- Both transactions go through, since neither looks at the token again, and the session has one live
    -- token more than before: the token has been exchanged twice. The token is unrevoked at first, and the
    -- new rows' identifiers are free; tokens have unique identifiers.
    pub rotate-twice :
        (draw' : SessionDraw)
        → find_first (token_by_id draw'.token_id) after.db.tokens ≡ none
        → t.revoked ≡ false
        → (v : World) × (v' : World) × (rotate crypto env draw t w ≡ (ok tt, v))
          × (rotate crypto env draw' t v ≡ (ok tt, v'))
          × (live_tokens crypto env t.family_id v'.db.tokens
              ≡ live_tokens crypto env t.family_id w.db.tokens + 1)
    rotate-twice draw' free' live = (
      after,
      record after { db = record after.db { tokens = rotated crypto env draw' t after } },
      rotate-done crypto env draw t w free,
      rotate-done crypto env draw' t after free',
      omega (
        arith,
        rotated_again-live_tokens draw' free',
        rotated-live_tokens crypto env draw t w t.family_id unique free found live,
      ),
    )
