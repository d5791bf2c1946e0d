-- ===== src/Referral/Checks.antt =====
-- What a passed check of apply_referral_handler, examples/linx-indexer/src/routers/points_router.rs,
-- says of what it checks.
use linx_app_backend.Base.{ℕ, Bool, true, false, not, Option, some, none, ◌≡◌, refl}
use linx_app_backend.Base.Outcome.{Outcome, Error, ok, err, panic}
use linx_app_backend.Referral.Request.{must_hold, must_be}
use linx_app_backend.Referral.Handler.{must_have, must_lack, expect_config}

pub must_hold_ok : (r : Outcome Bool) {u : Unit {0}} → must_hold r ≡ ok u → r ≡ ok true
must_hold_ok (ok true) h = refl
must_hold_ok (ok false) h = cc
must_hold_ok (err e) h = cc
must_hold_ok panic h = cc

pub refused_not : (b : Bool) (e : Error) {u : Unit {0}} → must_be (not b) e ≡ ok u → b ≡ false
refused_not false e h = refl
refused_not true e h = cc

pub must_have_ok :
    {A : Type 0} (o : Option A) (e : Error) {a : A} → must_have o e ≡ ok a → o ≡ some a
must_have_ok none e h = cc
must_have_ok (some a) e h = let same : ok a ≡ ok _ = h in cc

pub must_lack_ok :
    {A : Type 0} (o : Option A) (e : Error) {u : Unit {0}} → must_lack o e ≡ ok u → o ≡ none
must_lack_ok none e h = refl
must_lack_ok (some a) e h = cc

pub expect_config_ok : (r : Outcome (Option ℕ)) {n : ℕ} → expect_config r ≡ ok n → r ≡ ok (some n)
expect_config_ok (ok (some m)) h = let same : ok m ≡ ok _ = h in cc
expect_config_ok (ok none) h = cc
expect_config_ok (err e) h = cc
expect_config_ok panic h = cc
