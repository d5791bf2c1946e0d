-- ===== src/Referral/Lost.antt =====
-- What apply_referral_handler of examples/linx-indexer/src/routers/points_router.rs leaves behind where
-- it fails after the referral is stored.
use linx_app_backend.Base.{
  ℕ, true, false, Option, some, none, List, [], ◌∷◌, ◌++◌, ◌≡◌, refl, ap, ◌∙◌, if◌then◌else◌,
}
use linx_app_backend.Base.Equality.{string_eq, eqb, eqb_refl}
use linx_app_backend.Base.Outcome.{Outcome, ok, err, bad_request, internal}
use linx_app_backend.Crypto.{Libraries}
use linx_app_backend.Referral.Repository.{
  NewUserReferral, ReferralCode, Tables, find_referral, find_active,
}
use linx_app_backend.Referral.Request.{ApplyReferralRequest, authenticate}
use linx_app_backend.Referral.Handler.{usable_code, reward, apply_referral_handler}
use linx_app_backend.Referral.Applied.{IsUsable, IsAuthentic, with_referral}

module _ {SecretKey PublicKey Signature Message : Type 0}
    (libraries : Libraries SecretKey PublicKey Signature Message) where
  authenticate_lem :
      (now : ℕ) (request : ApplyReferralRequest)
      → IsAuthentic libraries now request
      → authenticate libraries now request ≡ ok tt
  unfolding authenticate
  authenticate_lem now request h = rw h.recent (rw h.owns_key (rw h.signed refl))

module _ {D : Type 0} where
  usable_code_lem :
      (request : ApplyReferralRequest) (t : Tables D) (referral_code : ReferralCode)
      → IsUsable request t referral_code
      → usable_code (ok tt) request t ≡ (ok referral_code, t)
  unfolding usable_code
  usable_code_lem request t referral_code h = rw h.unused (rw h.known (rw h.other_owner refl))

  usable_code_used :
      (request : ApplyReferralRequest) (t : Tables D) {r : NewUserReferral}
      → find_referral request.user_address t.user_referrals ≡ some r
      → usable_code (ok tt) request t
        ≡ (err (bad_request "User has already used a referral code"), t)
  unfolding usable_code
  usable_code_used request t used = rw used refl

  reward_lost :
      (zero_amount : D) (signup_bonus : Outcome (Option ℕ)) (yesterday : ℕ)
      (request : ApplyReferralRequest) (referral_code : ReferralCode) (t : Tables D)
      → find_referral request.user_address t.user_referrals ≡ none
      → find_active t.seasons ≡ none
      → reward zero_amount (ok tt) signup_bonus yesterday request referral_code t
        ≡ (err (internal "No active season found"), with_referral t request referral_code)
  unfolding reward
  reward_lost zero_amount signup_bonus yesterday request referral_code t unused idle =
      rw unused (rw idle refl)

find_referral-append :
    (new : NewUserReferral) (rs : List NewUserReferral)
    → (r : NewUserReferral) × (find_referral new.user_address (rs ++ new ∷ []) ≡ some r)
unfolding find_referral
find_referral-append new [] = (new, rw (eqb_refl new.user_address) refl)
find_referral-append new (r ∷ rs) =
    elim (eqb r.user_address new.user_address)
      as (λ b.
        (found : NewUserReferral) × ((if b
            then some r
            else find_referral new.user_address (rs ++ new ∷ []))
          ≡ some found)) [ true ↦ (r, refl) | false ↦ find_referral-append new rs ]

module _ {SecretKey PublicKey Signature Message D : Type 0}
    (libraries : Libraries SecretKey PublicKey Signature Message) (zero_amount : D)
    (signup_bonus : Outcome (Option ℕ)) where
  -- A user who was referred is refused, and the tables stay as they are.
  pub apply_twice :
      (now yesterday : ℕ) (request : ApplyReferralRequest) (t : Tables D) {r : NewUserReferral}
      → IsAuthentic libraries now request
      → find_referral request.user_address t.user_referrals ≡ some r
      → apply_referral_handler libraries zero_amount (ok tt) signup_bonus now yesterday request t
        ≡ (err (bad_request "User has already used a referral code"), t)
  unfolding apply_referral_handler
  apply_twice now yesterday request t authentic used =
      rw (authenticate_lem libraries now request authentic)
        (rw (usable_code_used request t used) refl)

  -- The database can be reached. Where an authentic request names a usable code and no season is
  -- active, the answer is an error, and yet the referral stays stored. From then on every authentic
  -- request of that user is refused without any change, whichever code it names and whatever season is
  -- active by then, as long as the table of referrals is the one left behind.
  pub bonus_lost :
      (now yesterday : ℕ) (request : ApplyReferralRequest) (t : Tables D)
      (referral_code : ReferralCode)
      → IsAuthentic libraries now request
      → IsUsable request t referral_code
      → find_active t.seasons ≡ none
      → (now' yesterday' : ℕ) (again : ApplyReferralRequest) (t' : Tables D)
      → IsAuthentic libraries now' again
      → again.user_address ≡ request.user_address
      → t'.user_referrals ≡ (with_referral t request referral_code).user_referrals
      → (apply_referral_handler libraries zero_amount (ok tt) signup_bonus now yesterday request t
          ≡ (err (internal "No active season found"), with_referral t request referral_code))
        × (apply_referral_handler libraries zero_amount
              (ok tt)
              signup_bonus
              now'
              yesterday'
              again
              t'
            ≡ (err (bad_request "User has already used a referral code"), t'))
  unfolding apply_referral_handler
  bonus_lost now yesterday request t referral_code authentic usable idle now' yesterday' again t'
        authentic' same_user left =
      let new : NewUserReferral = record {
        user_address = request.user_address;
        referred_by_address = referral_code.owner_address;
      } in
      let (r, stored) = find_referral-append new t.user_referrals in
      (
        rw (authenticate_lem libraries now request authentic) (
            rw (usable_code_lem request t referral_code usable) (
              rw
                (reward_lost zero_amount signup_bonus yesterday request referral_code t
                  usable.unused idle)
                refl)),
        apply_twice now' yesterday' again t' authentic' (
            ap (λ a. find_referral a t'.user_referrals) same_user
            ∙ ap (find_referral request.user_address) left
            ∙ stored),
      )
