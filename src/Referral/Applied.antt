-- ===== src/Referral/Applied.antt =====
-- What an answer of apply_referral_handler of examples/linx-indexer/src/routers/points_router.rs says
-- about the request and the tables, and what the order of its statements leaves behind.
use linx_app_backend.Base.{
  ℕ, true, false, not, Option, some, none, [], ◌∷◌, ◌++◌, String, ◌≡◌, ap, ◌∙◌, sym,
}
use linx_app_backend.Base.Equality.{string_eq, nat_eq, pair_eq}
use linx_app_backend.Base.HashMap.{insert}
use linx_app_backend.Base.Outcome
use linx_app_backend.Base.Outcome.{Outcome, Error, ok, err, panic, forbidden, bad_request, internal}
use linx_app_backend.Base.Action.{
  Action, ◌>>=◌, lift, bind_outcome, bind_ok, lift_ok, query_ok, execute_ok,
}
use linx_app_backend.Crypto.{Libraries, verify_signature, verify_public_key_for_address}
use linx_app_backend.Points.Snapshots.{key_of}
use linx_app_backend.Referral.Times.{is_old}
use linx_app_backend.Referral.Repository.{
  NewUserReferral, ReferralCode, Season, Tables, find_referral, find_code, find_active,
  latest_snapshot, get_active_season, add_referral, awarded, award_bonus_points,
}
use linx_app_backend.Referral.Request.{
  ApplyReferralRequest, ApplyReferralResponse, same_lowercase, must_be, message_to_sign,
  authenticate,
}
use linx_app_backend.Referral.Checks.{
  must_hold_ok, refused_not, must_have_ok, must_lack_ok, expect_config_ok,
}
use linx_app_backend.Referral.Handler.{
  must_have, must_lack, expect_config, usable_code, reward, apply_referral_handler,
}

-- The tables once a referral was stored, and once the bonus was awarded as well.
abbrev pub with_referral : {D : Type 0} → Tables D → ApplyReferralRequest → ReferralCode → Tables D
with_referral t request referral_code = record t {
  user_referrals =
      t.user_referrals
      ++ record {
        user_address = request.user_address;
        referred_by_address = referral_code.owner_address;
      }
        ∷ [];
}

abbrev pub with_award : {D : Type 0} → D → ℕ → String → ℕ → ℕ → Tables D → Tables D
with_award zero_amount yesterday user_address bonus_amount season_id t =
    let row =
      awarded zero_amount user_address bonus_amount season_id yesterday
        (latest_snapshot user_address season_id t.snapshots) in
    record t { snapshots = insert (key_of row) row t.snapshots }

-- The user was not referred yet, and the code is somebody else's.
pub record IsUsable {D : Type 0} (request : ApplyReferralRequest) (t : Tables D)
    (referral_code : ReferralCode) : Type 0 where
  pub unused : find_referral request.user_address t.user_referrals ≡ none
  pub known : find_code request.referral_code t.referral_codes ≡ some referral_code
  pub other_owner : same_lowercase referral_code.owner_address request.user_address ≡ false

-- The request is recent, and signed with the key of the address.
pub record IsAuthentic {SecretKey PublicKey Signature Message : Type 0}
    (libraries : Libraries SecretKey PublicKey Signature Message) (now : ℕ)
    (request : ApplyReferralRequest) : Type 0 where
  pub recent : is_old now request.timestamp ≡ false
  pub owns_key :
      verify_public_key_for_address libraries request.public_key request.user_address ≡ ok true
  pub signed :
      verify_signature libraries request.public_key
        (message_to_sign request.referral_code request.timestamp)
        request.signature
      ≡ ok true

pub authenticate_ok :
    {SecretKey PublicKey Signature Message : Type 0}
    (libraries : Libraries SecretKey PublicKey Signature Message) (now : ℕ)
    (request : ApplyReferralRequest) {u : Unit {0}}
    → authenticate libraries now request ≡ ok u
    → IsAuthentic libraries now request
unfolding authenticate
authenticate_ok libraries now request ended =
    let (_, young, rest) = Outcome.bind_ok _ _ ended in
    let (_, owner, signed) = Outcome.bind_ok _ _ rest in
    record {
      recent = refused_not _ _ young;
      owns_key = must_hold_ok _ owner;
      signed = must_hold_ok _ signed;
    }

pub usable_code_ok :
    {D : Type 0} (connection : Outcome (Unit {0})) (request : ApplyReferralRequest) (t : Tables D)
    {t' : Tables D} {referral_code : ReferralCode}
    → usable_code connection request t ≡ (ok referral_code, t')
    → IsUsable request t referral_code × (t' ≡ t)
unfolding usable_code
usable_code_ok connection request t {referral_code = referral_code} ended =
    let (_, q1) =
      query_ok connection (λ t. find_referral request.user_address t.user_referrals) _ ended in
    let (_, lacking, q2) =
      lift_ok
        (must_lack (find_referral request.user_address t.user_referrals)
          (bad_request "User has already used a referral code"))
        _ q1 in
    let (_, q3) =
      query_ok connection (λ t. find_code request.referral_code t.referral_codes) _ q2 in
    let (found, having, q4) =
      lift_ok
        (must_have (find_code request.referral_code t.referral_codes)
          (bad_request "Invalid referral code"))
        _ q3 in
    let (_, other, q5) =
      lift_ok
        (must_be (not (same_lowercase found.owner_address request.user_address))
          (bad_request "Cannot use your own referral code"))
        _ q4 in
    let same : ok found ≡ ok _ = ap (λ p. p.0) q5 in
    let same_tables : t ≡ _ = ap (λ p. p.1) q5 in
    let same_code : found ≡ referral_code = cc in
    (
      record {
        unused = must_lack_ok _ _ lacking;
        known = must_have_ok _ _ having ∙ ap some same_code;
        other_owner =
            ap (λ c. same_lowercase c.owner_address request.user_address) (sym same_code)
            ∙ refused_not _ _ other;
      },
      sym same_tables,
    )

award_bonus_points_ok :
    {D : Type 0} (connection : Outcome (Unit {0})) (zero_amount : D) (yesterday : ℕ)
    (user_address : String) (bonus season_id : ℕ) (t : Tables D) {t' : Tables D} {u : Unit {0}}
    → award_bonus_points connection zero_amount yesterday user_address bonus season_id t
      ≡ (ok u, t')
    → with_award zero_amount yesterday user_address bonus season_id t ≡ t'
unfolding award_bonus_points
award_bonus_points_ok (ok u) zero_amount yesterday user_address bonus season_id t ended =
    ap (λ p. p.1) ended
award_bonus_points_ok (err e) zero_amount yesterday user_address bonus season_id t ended =
    let no : err e ≡ ok _ = ap (λ p. p.0) ended in cc
award_bonus_points_ok panic zero_amount yesterday user_address bonus season_id t ended =
    let no : panic ≡ ok _ = ap (λ p. p.0) ended in cc

module _ {D : Type 0} (zero_amount : D) (connection : Outcome (Unit {0}))
    (signup_bonus : Outcome (Option ℕ)) (yesterday : ℕ) where
  -- The tables after the whole of the reward.
  abbrev pub rewarded : Tables D → ApplyReferralRequest → ReferralCode → Season → ℕ → Tables D
  rewarded t request referral_code season bonus =
      with_award zero_amount yesterday request.user_address bonus season.id
        (with_referral t request referral_code)

  -- What follows the insertion.
  abbrev award_season : ApplyReferralRequest → Action (Tables D) (Unit {0})
  award_season request = get_active_season connection >>= λ active.
      lift (must_have active (internal "No active season found")) >>= λ season.
      lift (expect_config signup_bonus) >>= λ bonus_amount.
      award_bonus_points connection zero_amount yesterday request.user_address bonus_amount
        season.id

  pub reward_ok :
      (request : ApplyReferralRequest) (referral_code : ReferralCode) (t : Tables D) {t' : Tables D}
      {u : Unit {0}}
      → find_referral request.user_address t.user_referrals ≡ none
      → reward zero_amount connection signup_bonus yesterday request referral_code t ≡ (ok u, t')
      → (season : Season) × (bonus : ℕ) × (find_active t.seasons ≡ some season)
        × (signup_bonus ≡ ok (some bonus))
        × (t' ≡ rewarded t request referral_code season bonus)
  unfolding reward
  reward_ok request referral_code t unused ended =
      let new : NewUserReferral = record {
        user_address = request.user_address;
        referred_by_address = referral_code.owner_address;
      } in
      let (_, q1) =
        execute_ok connection
          (λ t. add_referral new (find_referral new.user_address t.user_referrals) t) _ t ended in
      let q2 =
        ap (λ o. bind_outcome (add_referral new o t) (λ _. award_season request)) (sym unused)
        ∙ q1 in
      let (_, q3) = query_ok connection (λ t. find_active t.seasons) _ q2 in
      let (season, having, q4) =
        lift_ok (must_have (find_active t.seasons) (internal "No active season found")) _ q3 in
      let (bonus, configured, q5) = lift_ok (expect_config signup_bonus) _ q4 in
      let inserted =
        award_bonus_points_ok connection zero_amount yesterday request.user_address bonus season.id
          (with_referral t request referral_code) q5 in
      (
        season,
        bonus,
        must_have_ok _ _ having,
        expect_config_ok signup_bonus configured,
        sym inserted,
      )

module _ {SecretKey PublicKey Signature Message D : Type 0}
    (libraries : Libraries SecretKey PublicKey Signature Message) (zero_amount : D)
    (connection : Outcome (Unit {0})) (signup_bonus : Outcome (Option ℕ)) where
  -- Where the handler answers with success, the request passed the test of its time, its key belongs
  -- to its address and its signature is one of the message that names the code and the time; the user
  -- was not referred before, and the code belongs to somebody else; a season was active and the bonus
  -- configured. The tables then have one more row, which names the owner of the code as the user's
  -- referrer, and the bonus on the user's latest row of points in that season, or in a new row of the
  -- day before; nothing else is changed.
  pub applied_ok :
      (now yesterday : ℕ) (request : ApplyReferralRequest) (t t' : Tables D)
      (response : ApplyReferralResponse)
      → apply_referral_handler libraries zero_amount connection signup_bonus now yesterday request t
        ≡ (ok response, t')
      → IsAuthentic libraries now request
        × (referral_code : ReferralCode) × (season : Season) × (bonus : ℕ) × IsUsable request t
            referral_code
        × (find_active t.seasons ≡ some season)
        × (signup_bonus ≡ ok (some bonus))
        × (t'
            ≡ rewarded zero_amount connection signup_bonus yesterday t request referral_code season
                bonus)
  unfolding apply_referral_handler
  applied_ok now yesterday request t t' response ended =
      let (_, authentic, q1) = lift_ok (authenticate libraries now request) _ ended in
      let (referral_code, t1, usable, q2) = bind_ok (usable_code connection request) _ q1 in
      let (_, t2, paid, q3) =
        bind_ok (reward zero_amount connection signup_bonus yesterday request referral_code) _ q2 in
      let (is_usable, same_t1) = usable_code_ok connection request t usable in
      let (season, bonus, active, configured, same_t2) =
        reward_ok zero_amount connection signup_bonus yesterday request referral_code t
          is_usable.unused
          (ap (reward zero_amount connection signup_bonus yesterday request referral_code)
              (sym same_t1)
            ∙ paid) in
      let same_t' : t2 ≡ t' = ap (λ p. p.1) q3 in
      (
        authenticate_ok libraries now request authentic,
        referral_code,
        season,
        bonus,
        is_usable,
        active,
        configured,
        sym same_t' ∙ same_t2,
      )
