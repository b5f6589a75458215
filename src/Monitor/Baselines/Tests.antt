-- ===== src/Monitor/Baselines/Tests.antt =====
-- The baselines at work.
use monitower.Prelude.{ℕ, [], ◌∷◌, ◌++◌, ◌≡◌, refl, arith}
use monitower.Float64.{of_int}
use monitower.Float64.Hundredths.{Hundredths, hundredths_float}
use monitower.Monitor.Baselines.{TimestampedValue, Baseline, add_sample, drop_before}
use monitower.Monitor.Baselines.Window.{InOrder, since, sample, add_sample-InOrder}

abbrev at : ℕ → TimestampedValue Hundredths
at ts = sample ts (of_int 1)

-- A window of 60 s with samples of the first, the second and the last of its seconds.
abbrev minute : Baseline Hundredths
minute = record { values = at 1000 ∷ at 2000 ∷ at 61000 ∷ []; window = 60000 }

-- What the polls leave that read the rows of 61 s and of 1 s in one batch, and those of 1 s again.
abbrev overlapping : Baseline Hundredths
overlapping = record { values = at 61000 ∷ at 1000 ∷ []; window = 60000 }

minute_cut : (add_sample 62500 (of_int 2) minute).values ≡ at 61000 ∷ sample 62500 (of_int 2) ∷ []
unfolding add_sample drop_before
minute_cut = refl

add_sample-InOrder_example :
    ((add_sample 62500 (of_int 2) minute).values
      ≡ since 2500 (minute.values ++ sample 62500 (of_int 2) ∷ []))
    × InOrder (add_sample 62500 (of_int 2) minute).values
add_sample-InOrder_example =
    add_sample-InOrder 62500 (of_int 2) minute
      ((omega arith, (omega arith, tt)), ((omega arith, tt), (tt, tt)))
      (omega arith, (omega arith, (omega arith, tt)))
