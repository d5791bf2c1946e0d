-- ===== src/Referral/Tests.antt =====
-- apply_referral_handler with the toy libraries and a small database.
use linx_app_backend.Base.{ℕ, true, false, Option, some, none, List, [], ◌∷◌, String, ◌≡◌, refl}
use linx_app_backend.Base.U64.{sub64}
use linx_app_backend.Base.HashMap.{alter}
use linx_app_backend.Base.Outcome.{Outcome, ok, err, forbidden, bad_request, internal}
use linx_app_backend.Address.{hex_digit}
use linx_app_backend.Crypto.{as_bytes, same_bytes, verify_signature, verify_public_key_for_address}
use linx_app_backend.Crypto.Samples.{strokes, write_bytes, read_bytes, copies, toy}
use linx_app_backend.Points.Snapshots.{key_of}
use linx_app_backend.Referral.Times.{is_old, digits, show_i64}
use linx_app_backend.Referral.Repository.{
  ReferralCode, Season, Tables, find_referral, find_code, find_active, latest_snapshot,
  award_bonus_points, bonus_row,
}
use linx_app_backend.Referral.Request.{
  ApplyReferralRequest, ApplyReferralResponse, same_lowercase, message_to_sign, authenticate,
}
use linx_app_backend.Referral.Handler.{usable_code, reward, apply_referral_handler}
use linx_app_backend.Referral.Applied.{IsUsable, IsAuthentic, with_referral, rewarded, applied_ok}
use linx_app_backend.Referral.Lost.{bonus_lost}

-- An address of a hash for the key 9.
abbrev user : String
user = write_bytes (0 ∷ copies 32 1)

-- "Apply referral: SUN at 5000" has 27 bytes.
abbrev request : ApplyReferralRequest
request = record {
  user_address = user;
  public_key = write_bytes (9 ∷ []);
  referral_code = "SUN";
  signature = write_bytes (27 ∷ 9 ∷ []);
  timestamp = 5000;
}

abbrev sun : ReferralCode
sun = record { id = 1; code = "SUN"; owner_address = "owner" }

abbrev summer : Season
summer = record { id = 4; season_number = 2; is_active = true }

abbrev tables : List Season → Tables ℕ
tables seasons = record {
  user_referrals = [];
  referral_codes = sun ∷ [];
  seasons = seasons;
  snapshots = [];
}

abbrev apply : ℕ → List Season → Outcome ApplyReferralResponse × Tables ℕ
apply now seasons =
    apply_referral_handler toy 0 (ok tt) (ok (some 500)) now 20 request (tables seasons)

show_i64_examples : (show_i64 5000 ≡ "5000") × (show_i64 18446744073709551546 ≡ "-70")
unfolding show_i64 digits hex_digit
show_i64_examples = (refl, refl)

-- A time 2 ^ 63 milliseconds away passes as recent, since its absolute value wraps around.
is_old_examples :
    (is_old 400000 5000 ≡ true)
    × (is_old 5000 200000 ≡ false)
    × (is_old 5000 9223372036854780808 ≡ false)
unfolding is_old sub64
is_old_examples = (refl, refl, refl)

authentic : IsAuthentic toy 6000 request
unfolding is_old verify_public_key_for_address verify_signature as_bytes same_bytes strokes
    write_bytes read_bytes message_to_sign show_i64 digits hex_digit sub64 alter
authentic = record { recent = refl; owns_key = refl; signed = refl }

usable : (seasons : List Season) → IsUsable request (tables seasons) sun
unfolding find_referral find_code same_lowercase same_bytes strokes write_bytes
usable seasons = record { unused = refl; known = refl; other_owner = refl }

final : Tables ℕ
final = record (tables (summer ∷ [])) {
  user_referrals = record { user_address = user; referred_by_address = "owner" } ∷ [];
  snapshots = let row = bonus_row 0 user 500 4 20 in (key_of row, row) ∷ [];
}

abbrev accepted : ApplyReferralResponse
accepted = record { success = true; message = "Successfully applied referral code from owner" }

applied : apply 6000 (summer ∷ []) ≡ (ok accepted, final)
unfolding apply_referral_handler authenticate usable_code reward award_bonus_points final
    find_active latest_snapshot find_referral find_code same_lowercase is_old
    verify_public_key_for_address verify_signature as_bytes same_bytes strokes write_bytes
    read_bytes message_to_sign show_i64 digits hex_digit sub64 alter
applied = refl

too_old : apply 306000 (summer ∷ []) ≡ (err (forbidden "Invalid signature"), tables (summer ∷ []))
unfolding apply_referral_handler authenticate is_old sub64
too_old = refl

applied_ok_example :
    IsAuthentic toy 6000 request
    × (referral_code : ReferralCode) × (season : Season) × (bonus : ℕ) × IsUsable request
        (tables (summer ∷ []))
        referral_code
    × (find_active (summer ∷ []) ≡ some season)
    × (◌≡◌ {A = Outcome (Option ℕ)} (ok (some 500)) (ok (some bonus)))
    × (final
        ≡ rewarded 0
            (ok tt)
            (ok (some 500))
            20
            (tables (summer ∷ []))
            request
            referral_code
            season
            bonus)
applied_ok_example =
    applied_ok toy 0 (ok tt) (ok (some 500)) 6000 20 request (tables (summer ∷ [])) final accepted
      applied

idle : find_active [] ≡ none
unfolding find_active
idle = refl

abbrev left : Tables ℕ
left = with_referral (tables []) request sun

-- The next time the season is active.
bonus_lost_example :
    (apply 6000 [] ≡ (err (internal "No active season found"), left))
    × (apply_referral_handler toy 0
          (ok tt)
          (ok (some 500))
          6000
          21
          request
          (record left { seasons = summer ∷ [] })
        ≡ (
          err (bad_request "User has already used a referral code"),
          record left { seasons = summer ∷ [] },
        ))
bonus_lost_example =
    bonus_lost toy 0 (ok (some 500)) 6000 20 request (tables []) sun authentic (usable []) idle 6000
      21 request (record left { seasons = summer ∷ [] }) authentic refl refl
