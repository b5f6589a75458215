-- ===== src/Monitor/Baselines.antt =====
-- The sliding baselines of internal/monitor/anomaly.go.
-- The window is in milliseconds. The map of baselines is an association list: a method that stores a
-- sample changes the entry in place, and adds one with no values first if the key is missing.
pub mod Window
pub mod Tests
use Prim.Native.String.{◌++◌ as concat}
use monitower.Prelude.{
  ℕ, ◌-◌, Bool, true, false, if◌then◌else◌, ltb, String, List, [], ◌∷◌, ◌++◌, Option, none, some,
  length, string_eq,
}
use monitower.Prelude.Dict.{lookup, insert}
use monitower.Float64.{Float64, of_int, add, sub, mul, div, sqrt}

pub record TimestampedValue (W : Type 0) : Type 0 where
  pub ts : ℕ
  pub value : W

pub record Baseline (W : Type 0) : Type 0 where
  pub values : List (TimestampedValue W)
  pub window : ℕ

pub record Baselines (W : Type 0) : Type 0 where
  pub window : ℕ
  pub by_key : List (String × Baseline W)

-- What the statistics return; both numbers are 0 where `valid` is false.
pub record Stats (W : Type 0) : Type 0 where
  pub mean : W
  pub stddev : W
  pub valid : Bool

abbrev pub min_samples : ℕ
min_samples = 10

abbrev pub service_key : String → String → String
service_key service metric = concat "svc:" (concat service (concat ":" metric))

abbrev pub queue_key : String → String → String
queue_key queue metric = concat "q:" (concat queue (concat ":" metric))

module _ {W : Type 0} where
  -- The loop that counts the values before the cutoff, up to the first one that is not, and the cut.
  unfoldable pub drop_before : ℕ → List (TimestampedValue W) → List (TimestampedValue W)
  drop_before cutoff [] = []
  drop_before cutoff (v ∷ values) =
      let rest = drop_before cutoff values in if ltb v.ts cutoff then rest else v ∷ values

  unfoldable pub add_sample : ℕ → W → Baseline W → Baseline W
  unfolding drop_before
  add_sample ts value b =
      let cutoff = ts - b.window in
      record b { values = drop_before cutoff (b.values ++ record { ts = ts; value = value } ∷ []) }

  unfoldable pub new_baselines : ℕ → Baselines W
  new_baselines window = record { window = window; by_key = [] }

  -- The baseline that `get` finds or makes.
  abbrev pub found_or_new : ℕ → Option (Baseline W) → Baseline W
  found_or_new window none = record { values = []; window = window }
  found_or_new window (some b) = b

  unfoldable pub get : String → Baselines W → Baseline W
  get key bs = found_or_new bs.window (lookup key bs.by_key)

  -- `bs.get(key).add(ts, value)`
  unfoldable pub add_at : String → ℕ → W → Baselines W → Baselines W
  unfolding add_sample get
  add_at key ts value bs = record bs {
    by_key = insert key (add_sample ts value (get key bs)) bs.by_key;
  }

  unfoldable pub add_service_metric : ℕ → String → String → W → Baselines W → Baselines W
  unfolding add_at
  add_service_metric ts service metric value bs = add_at (service_key service metric) ts value bs

  unfoldable pub add_queue_metric : ℕ → String → String → W → Baselines W → Baselines W
  unfolding add_at
  add_queue_metric ts queue metric value bs = add_at (queue_key queue metric) ts value bs

module _ {W : Type 0} ⦃f : Float64 W⦄ where
  abbrev pub sum : List (TimestampedValue W) → W → W
  sum [] total = total
  sum (v ∷ values) total = sum values (add total v.value)

  abbrev pub sum_squares : W → List (TimestampedValue W) → W → W
  sum_squares mean [] total = total
  sum_squares mean (v ∷ values) total =
      let d = sub v.value mean in sum_squares mean values (add total (mul d d))

  abbrev pub no_stats : Stats W
  no_stats = record { mean = of_int 0; stddev = of_int 0; valid = false }

  unfoldable pub stats : Baseline W → Stats W
  stats b =
      if ltb (length b.values) min_samples
      then no_stats
      else (let n = of_int (length b.values) in
          let mean = div (sum b.values (of_int 0)) n in
          let variance = div (sum_squares mean b.values (of_int 0)) n in
          record { mean = mean; stddev = sqrt variance; valid = true })

  abbrev pub stats_or_none : Option (Baseline W) → Stats W
  unfolding stats
  stats_or_none none = no_stats
  stats_or_none (some b) = stats b

  unfoldable pub service_metric_stats : String → String → Baselines W → Stats W
  unfolding stats
  service_metric_stats service metric bs =
      stats_or_none (lookup (service_key service metric) bs.by_key)

  unfoldable pub queue_metric_stats : String → String → Baselines W → Stats W
  unfolding stats
  queue_metric_stats queue metric bs = stats_or_none (lookup (queue_key queue metric) bs.by_key)
