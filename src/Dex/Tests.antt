-- ===== src/Dex/Tests.antt =====
-- The swaps of examples/linx-indexer/src/processors/dex_processor.rs on small inputs, and the
-- theorems at concrete inputs.
use linx_app_backend.Base.{
  ℕ, true, List, [], ◌∷◌, String, ◌≡◌, ◌≢◌, refl, ◌↔◌, inl, inr, In, arith, length, subst, sym, ap,
}
use linx_app_backend.Base.Equality.{string_eq}
use text.Mathlib.TextEquality.{eq_iff}
use linx_app_backend.Base.HashMap.{HashMap, VisitsAll, alter}
use linx_app_backend.Base.Ints.{ℤ, pos, as_i32}
use linx_app_backend.Base.Outcome.{ok, panic}
use linx_app_backend.Processors.Records.{NewAccountTransaction, swap_details}
use linx_app_backend.Processors.Samples.{decimal}
use linx_app_backend.Dex.Hops.{
  aggregate_tx, aggregate_multi_hop_swaps, group_by_tx, aggregate_sorted, sort_by_index,
  insert_by_index,
}
use linx_app_backend.Dex.Hops.Groups.{swaps_of}
use linx_app_backend.Dex.Hops.Rows.{IsReadable}
use linx_app_backend.Dex.Hops.Transactions.{aggregate_multi_hop_swaps_lem}
use linx_app_backend.Dex.Hops.OneIndex.{last_first}
use linx_app_backend.Dex.Hops.Routes.{Says, route_aggregated}

abbrev swap : String → String → String → ℕ → ℕ → NewAccountTransaction ℕ ℕ
swap tx_id token_in token_out amount_in amount_out = record {
  address = "alice";
  tx_type = "swap";
  tx_id = tx_id;
  from_group = pos 0;
  to_group = pos 0;
  block_height = pos 5;
  timestamp = 7;
  details = swap_details (record {
    token_in = token_in;
    token_out = token_out;
    amount_in = amount_in;
    amount_out = amount_out;
    pool_address = "pool-address";
    tx_id = tx_id;
    hop_count = pos 1;
  });
}

abbrev one_two : NewAccountTransaction ℕ ℕ
one_two = swap "t1" "token-one" "token-two" 4 9

abbrev two_six : NewAccountTransaction ℕ ℕ
two_six = swap "t1" "token-two" "token-six" 9 5

abbrev other : NewAccountTransaction ℕ ℕ
other = swap "t2" "token-one" "token-two" 5 8

abbrev one_two-IsReadable : IsReadable true one_two
one_two-IsReadable = record {
  swap = record {
    token_in = "token-one";
    token_out = "token-two";
    amount_in = 4;
    amount_out = 9;
    pool_address = "pool-address";
    tx_id = "t1";
    hop_count = pos 1;
  };
  has_swap = refl;
  token_in_shown = refl;
  token_out_shown = refl;
  pool_shown = refl;
}

abbrev two_six-IsReadable : IsReadable true two_six
two_six-IsReadable = record {
  swap = record {
    token_in = "token-two";
    token_out = "token-six";
    amount_in = 9;
    amount_out = 5;
    pool_address = "pool-address";
    tx_id = "t1";
    hop_count = pos 1;
  };
  has_swap = refl;
  token_in_shown = refl;
  token_out_shown = refl;
  pool_shown = refl;
}

abbrev other-IsReadable : IsReadable true other
other-IsReadable = record {
  swap = record {
    token_in = "token-one";
    token_out = "token-two";
    amount_in = 5;
    amount_out = 8;
    pool_address = "pool-address";
    tx_id = "t2";
    hop_count = pos 1;
  };
  has_swap = refl;
  token_in_shown = refl;
  token_out_shown = refl;
  pool_shown = refl;
}

abbrev swaps : List (ℤ × NewAccountTransaction ℕ ℕ)
swaps = (pos 2, two_six) ∷ (pos 2, other) ∷ (pos 2, one_two) ∷ []

abbrev listed :
    HashMap String (List (ℤ × NewAccountTransaction ℕ ℕ))
    → List (String × List (ℤ × NewAccountTransaction ℕ ℕ))
listed m = m

listed-VisitsAll : VisitsAll listed
listed-VisitsAll m d = (d, λ x. (λ h. h, λ h. h))

swaps-IsReadable : (s : ℤ × NewAccountTransaction ℕ ℕ) → In s swaps → IsReadable true (s.1)
swaps-IsReadable s (inl e) = subst (IsReadable true) (sym (ap (λ x. x.1) e)) two_six-IsReadable
swaps-IsReadable s (inr (inl e)) = subst (IsReadable true) (sym (ap (λ x. x.1) e)) other-IsReadable
swaps-IsReadable s (inr (inr (inl e))) =
    subst (IsReadable true) (sym (ap (λ x. x.1) e)) one_two-IsReadable
swaps-IsReadable s (inr (inr (inr i))) = elim i [ ]

-- Two transactions, one of them with a route of two swaps.
two_rows :
    aggregate_multi_hop_swaps decimal true listed swaps
    ≡ ok (
        record one_two {
          details = swap_details (record {
            token_in = "token-one";
            token_out = "token-six";
            amount_in = 4;
            amount_out = 5;
            pool_address = "pool-address,pool-address";
            tx_id = "t1";
            hop_count = pos 2;
          });
        }
        ∷ other
        ∷ [])
unfolding aggregate_multi_hop_swaps aggregate_tx aggregate_sorted group_by_tx alter sort_by_index
    insert_by_index as_i32
two_rows = refl

-- A token with a short identifier is cut by a message.
short_token :
    aggregate_tx decimal true "t1"
      ((pos 2, swap "t1" "ALPH" "token-two" 4 9) ∷ (pos 2, two_six) ∷ [])
    ≡ panic
unfolding aggregate_tx
short_token = refl

aggregate_multi_hop_swaps_lem_example :
    (rows : List (NewAccountTransaction ℕ ℕ)) × (aggregate_multi_hop_swaps decimal true listed swaps
      ≡ ok rows)
    × ((row : NewAccountTransaction ℕ ℕ)
        → In row rows ↔ (
            (tx_id : String) × (swaps_of tx_id swaps ≢ [])
            × (aggregate_tx decimal true tx_id (swaps_of tx_id swaps) ≡ ok row)))
aggregate_multi_hop_swaps_lem_example =
    aggregate_multi_hop_swaps_lem decimal true listed listed-VisitsAll swaps swaps-IsReadable

other_token : ◌≢◌ {A = String} "token-one" "token-two"
other_token = ground (arith, eq_iff "token-one" "token-two")

next_token : ◌≢◌ {A = String} "token-two" "token-six"
next_token = ground (arith, eq_iff "token-two" "token-six")

hops-IsReadable :
    (r : NewAccountTransaction ℕ ℕ) → In r (one_two ∷ two_six ∷ []) → IsReadable true r
hops-IsReadable r (inl e) = subst (IsReadable true) (sym e) one_two-IsReadable
hops-IsReadable r (inr (inl e)) = subst (IsReadable true) (sym e) two_six-IsReadable
hops-IsReadable r (inr (inr i)) = elim i [ ]

route_aggregated_example :
    (row : NewAccountTransaction ℕ ℕ) × (aggregate_tx decimal true "t1"
        (last_first (pos 2) (one_two ∷ two_six ∷ []))
      ≡ ok row)
    × Says row one_two "token-one" "token-six"
        (one_two-IsReadable.swap.amount_in)
        (two_six-IsReadable.swap.amount_out)
        (as_i32 (pos (length (one_two ∷ two_six ∷ []))))
route_aggregated_example =
    route_aggregated decimal true "t1" "token-one" "token-six" (pos 2) one_two two_six two_six []
      (
        one_two-IsReadable.swap,
        refl,
        refl,
        other_token,
        (two_six-IsReadable.swap, refl, refl, next_token, refl),
      )
      refl hops-IsReadable one_two-IsReadable two_six-IsReadable
