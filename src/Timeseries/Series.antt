-- ===== src/Timeseries/Series.antt =====
-- provider/internal/timeseries/series.go: a series of values with their times.
--
-- Times and the retention are numbers of one unit, and the current time is an argument. The
-- arithmetic of the value type, of int64 or of float64, is an argument; weights are integers,
-- whose sum does not overflow.
use go_libp2p_hybrid_kad_dht.Prelude.{
  ℕ, ◌+◌, ℤ, pos, ◌+ℤ◌, is_zero, Bool, true, false, List, [], ◌∷◌, ◌++◌, length, ltb, ◌==◌,
  if◌then◌else◌,
}

-- `Numeric`: what the code does with values of `T`, and the division of two of them as float64.
pub record Numeric {ℓ κ} (T : Type ℓ) (F : Type κ) : Type (ℓ ⊔ κ) where
  pub zero_value : T
  pub plus : T → T → T
  pub times : T → T → T
  pub of_int : ℤ → T
  pub zero_float : F
  pub quotient : T → ℤ → F

-- `timeEntry`.
pub record TimeEntry {ℓ} (T : Type ℓ) : Type ℓ where
  pub timestamp : ℕ
  pub value : T
  pub weight : ℤ

-- `TimeSeries`.
pub record TimeSeries {ℓ} (T : Type ℓ) : Type ℓ where
  pub entries : List (TimeEntry T)
  pub retention : ℕ
  pub weighted : Bool

module _ {ℓ} {T : Type ℓ} where
  -- `NewTimeSeries` and `NewWeightedTimeSeries`.
  abbrev pub new_time_series : ℕ → TimeSeries T
  new_time_series retention = record { entries = []; retention = retention; weighted = false }

  abbrev pub new_weighted_time_series : ℕ → TimeSeries T
  new_weighted_time_series retention = record {
    entries = [];
    retention = retention;
    weighted = true;
  }

  -- `gc`: the test of `timestamp.Before(now.Add(-retention))`, and its loop.
  abbrev pub expired : ℕ → ℕ → TimeEntry T → Bool
  expired retention now entry = ltb (entry.timestamp + retention) now

  unfoldable pub gc_loop : ℕ → ℕ → List (TimeEntry T) → List (TimeEntry T)
  gc_loop retention now [] = []
  gc_loop retention now (entry ∷ rest) =
      let popped = gc_loop retention now rest in
      if expired retention now entry then popped else entry ∷ rest

  unfoldable pub gc : TimeSeries T → ℕ → TimeSeries T
  unfolding gc_loop
  gc t now = record t { entries = gc_loop t.retention now t.entries }

  -- `AddWeighted`.
  unfoldable pub add_weighted : TimeSeries T → ℕ → T → ℤ → TimeSeries T
  unfolding gc
  add_weighted t now value weight =
      let w = if t.weighted then weight else pos 1 in
      gc
        (record t {
          entries = t.entries ++ record { timestamp = now; value = value; weight = w } ∷ [];
        })
        now

  -- `Add`.
  unfoldable pub add : TimeSeries T → ℕ → T → TimeSeries T
  unfolding add_weighted
  add t now value = add_weighted t now value (pos 1)

  -- `Count`.
  unfoldable pub count : TimeSeries T → ℕ → TimeSeries T × ℕ
  unfolding gc
  count t now = let t' = gc t now in (t', length t'.entries)

  module _ {κ} {F : Type κ} (n : Numeric T F) where
    -- The loops of `sumUnlocked` and of `Avg`, from a partial sum.
    unfoldable pub sum_loop : Bool → T → List (TimeEntry T) → T
    sum_loop weighted sum [] = sum
    sum_loop weighted sum (entry ∷ rest) =
        sum_loop weighted
          (n.plus sum
            (if weighted then n.times entry.value (n.of_int entry.weight) else entry.value))
          rest

    unfoldable pub total_weight : ℤ → List (TimeEntry T) → ℤ
    total_weight total [] = total
    total_weight total (entry ∷ rest) = total_weight (total +ℤ entry.weight) rest

    -- `sumUnlocked` and `Sum`.
    unfoldable pub sum : TimeSeries T → ℕ → TimeSeries T × T
    unfolding gc sum_loop
    sum t now = let t' = gc t now in (t', sum_loop t'.weighted n.zero_value t'.entries)

    -- `Avg`; the second clearing, of `sumUnlocked`, is at the time `later`.
    unfoldable pub avg : TimeSeries T → ℕ → ℕ → TimeSeries T × F
    unfolding gc sum_loop total_weight sum
    avg t now later =
        let t' = gc t now in
        let size = length t'.entries in
        let total = total_weight (pos 0) t'.entries in
        let (t'', s) = sum t' later in
        if size == 0
        then (t', n.zero_float)
        else if t'.weighted
        then (
          t',
          if is_zero total
              then n.zero_float
              else n.quotient (sum_loop true n.zero_value t'.entries) total,
        )
        else (t'', n.quotient s (pos size))
