-- ===== src/Referral/Request.antt =====
-- The request of apply_referral_handler of examples/linx-indexer/src/routers/points_router.rs, and what
-- the handler checks of the request itself. The clock and the libraries of crypto.rs are arguments.
use Prim.Native.String
use linx_app_backend.Base.{ℕ, ◌+◌, Bool, true, false, not, ◌&&◌, map, String, leb, if◌then◌else◌}
use linx_app_backend.Base.Outcome.{Outcome, Error, ok, err, panic, forbidden, ◌>>=◌}
use linx_app_backend.Address.{codes}
use linx_app_backend.Crypto.{Libraries, same_bytes, verify_signature, verify_public_key_for_address}
use linx_app_backend.Referral.Times.{is_old, show_i64}

pub record ApplyReferralRequest : Type 0 where
  pub user_address : String
  pub public_key : String
  pub referral_code : String
  pub signature : String
  pub timestamp : ℕ

pub record ApplyReferralResponse : Type 0 where
  pub success : Bool
  pub message : String

-- `to_lowercase` of the characters of ASCII, which an address consists of.
abbrev lower : ℕ → ℕ
lower c = if leb b'A' c && leb c b'Z' then c + 32 else c

unfoldable pub same_lowercase : String → String → Bool
same_lowercase a b = same_bytes (map lower (codes a)) (map lower (codes b))

-- `map_err(|_| AppError::Forbidden("Invalid signature"))?`, and the refusal of `false`.
abbrev pub must_hold : Outcome Bool → Outcome (Unit {0})
must_hold (ok true) = ok tt
must_hold (ok false) = err (forbidden "Invalid signature")
must_hold (err e) = err (forbidden "Invalid signature")
must_hold panic = panic

abbrev pub must_be : Bool → Error → Outcome (Unit {0})
must_be true e = ok tt
must_be false e = err e

-- `format!("Apply referral: {} at {}", …)`
unfoldable pub message_to_sign : String → ℕ → String
message_to_sign referral_code timestamp =
    String.◌++◌ "Apply referral: "
      (String.◌++◌ referral_code (String.◌++◌ " at " (show_i64 timestamp)))

-- The request is recent, and signed with the key of its address.
unfoldable pub authenticate :
    {SecretKey PublicKey Signature Message : Type 0}
    → Libraries SecretKey PublicKey Signature Message
    → ℕ
    → ApplyReferralRequest
    → Outcome (Unit {0})
authenticate libraries current_timestamp request =
    must_be (not (is_old current_timestamp request.timestamp)) (forbidden "Invalid signature")
    >>= λ _.
        must_hold (verify_public_key_for_address libraries request.public_key request.user_address)
        >>= λ _. must_hold (
            verify_signature libraries request.public_key
              (message_to_sign request.referral_code request.timestamp) request.signature)
