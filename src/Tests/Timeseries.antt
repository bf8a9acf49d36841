-- ===== src/Tests/Timeseries.antt =====
-- provider/internal/timeseries at concrete inputs.
use go_libp2p_hybrid_kad_dht.Prelude.{ℕ, ℤ, pos, negsuc, ◌+ℤ◌, ◌≡◌, refl, List, [], ◌∷◌}
use go_libp2p_hybrid_kad_dht.Timeseries.Series.{
  new_weighted_time_series, add_weighted, count, Numeric, sum, avg,
}
use go_libp2p_hybrid_kad_dht.Timeseries.Window.{Call, after, count_window}
use Prim.Native.Nat.{◌+◌, ◌*◌, ◌/◌}

-- Three calls, at the times 1, 5 and 9, with a retention of 5.
abbrev calls : List (Call ℕ)
calls =
    record { time = 1; value = 10; weight = pos 2 }
    ∷ record { time = 5; value = 20; weight = pos 3 }
    ∷ record { time = 9; value = 30; weight = pos 1 }
    ∷ []

-- Weights that are not negative.
abbrev size_of : ℤ → ℕ
size_of (pos n) = n
size_of (negsuc n) = 0

abbrev naturals : Numeric ℕ ℕ
naturals = record {
  zero_value = 0;
  plus = λ a b. a + b;
  times = λ a b. a * b;
  of_int = size_of;
  zero_float = 0;
  quotient = λ a n. a / size_of n;
}

sum_run : (sum naturals (after (new_weighted_time_series 5) calls) 10).1 ≡ 90
unfolding sum add_weighted
sum_run = refl

avg_run : (avg naturals (after (new_weighted_time_series 5) calls) 10 10).1 ≡ 22
unfolding avg add_weighted ◌+ℤ◌
avg_run = refl

count_window_example :
    ((count (after (new_weighted_time_series 5) calls) 10).0.entries
      ≡ record { timestamp = 5; value = 20; weight = pos 3 }
        ∷ record { timestamp = 9; value = 30; weight = pos 1 }
        ∷ [])
    × ((count (after (new_weighted_time_series 5) calls) 10).1 ≡ 2)
count_window_example =
    count_window (new_weighted_time_series 5) calls 10 (refl, (refl, (refl, tt))) refl
