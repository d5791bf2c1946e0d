-- ===== src/Referral/Handler.antt =====
-- apply_referral_handler of examples/linx-indexer/src/routers/points_router.rs. The configuration is an
-- argument: what loading it gives, and in it the bonus if it has a section of points.
use Prim.Native.String
use linx_app_backend.Base.{ℕ, true, not, Option, some, none}
use linx_app_backend.Base.Outcome.{Outcome, Error, ok, err, panic, bad_request, internal}
use linx_app_backend.Base.Action.{Action, ◌>>=◌, ◌>>◌, lift, pure}
use linx_app_backend.Crypto.{Libraries}
use linx_app_backend.Referral.Request.{
  ApplyReferralRequest, ApplyReferralResponse, same_lowercase, must_be, authenticate,
}
use linx_app_backend.Referral.Repository.{
  ReferralCode, Tables, get_user_referral, get_referral_code, get_active_season,
  insert_user_referral, award_bonus_points,
}

abbrev pub must_have : {A : Type 0} → Option A → Error → Outcome A
must_have none e = err e
must_have (some a) e = ok a

abbrev pub must_lack : {A : Type 0} → Option A → Error → Outcome (Unit {0})
must_lack none e = ok tt
must_lack (some a) e = err e

-- `config.points.expect(…)`
abbrev pub expect_config : Outcome (Option ℕ) → Outcome ℕ
expect_config (ok (some signup_bonus)) = ok signup_bonus
expect_config (ok none) = panic
expect_config (err e) = err e
expect_config panic = panic

module _ {D : Type 0} (connection : Outcome (Unit {0})) where
  -- The code that may be used by the user.
  unfoldable pub usable_code : ApplyReferralRequest → Action (Tables D) ReferralCode
  usable_code request = get_user_referral connection request.user_address >>= λ existing.
      lift (must_lack existing (bad_request "User has already used a referral code"))
      >> (get_referral_code connection request.referral_code >>= λ found.
          lift (must_have found (bad_request "Invalid referral code")) >>= λ referral_code.
          lift (
            must_be (not (same_lowercase referral_code.owner_address request.user_address))
              (bad_request "Cannot use your own referral code"))
          >> pure referral_code)

module _ {D : Type 0} (zero_amount : D) (connection : Outcome (Unit {0}))
    (signup_bonus : Outcome (Option ℕ)) where
  -- The referral is stored before the bonus is awarded.
  unfoldable pub reward : ℕ → ApplyReferralRequest → ReferralCode → Action (Tables D) (Unit {0})
  reward yesterday request referral_code =
      insert_user_referral connection (record {
        user_address = request.user_address;
        referred_by_address = referral_code.owner_address;
      })
      >> (get_active_season connection >>= λ active.
          lift (must_have active (internal "No active season found")) >>= λ season.
          lift (expect_config signup_bonus) >>= λ bonus_amount.
          award_bonus_points connection zero_amount yesterday request.user_address bonus_amount
            season.id)

module _ {SecretKey PublicKey Signature Message D : Type 0}
    (libraries : Libraries SecretKey PublicKey Signature Message) (zero_amount : D)
    (connection : Outcome (Unit {0})) (signup_bonus : Outcome (Option ℕ)) where
  unfoldable pub apply_referral_handler :
      ℕ → ℕ → ApplyReferralRequest → Action (Tables D) ApplyReferralResponse
  apply_referral_handler current_timestamp yesterday request =
      lift (authenticate libraries current_timestamp request)
      >> (usable_code connection request >>= λ referral_code.
          reward zero_amount connection signup_bonus yesterday request referral_code
          >> pure (record {
            success = true;
            message =
                String.◌++◌ "Successfully applied referral code from " referral_code.owner_address;
          }))
