-- ===== src/Monitor/Signal.antt =====
-- Anomaly signals (internal/monitor/anomaly.go) and how the correlator reads one: its key, its
-- service, and the place of a service in the pipeline (internal/monitor/correlator.go).
-- Times are Unix milliseconds, which are no negative numbers and far below the bound of an int64.
use Prim.Native.String.{◌++◌ as concat}
use monitower.Prelude.{
  ℕ, Bool, not, ltb, ◌==◌, if◌then◌else◌, String, List, [], ◌∷◌, Option, none, some, string_eq,
}
use monitower.Prelude.Dict.{lookup}

pub record AnomalySignal (W : Type 0) : Type 0 where
  pub ts : ℕ
  pub service : String
  pub queue : String
  pub metric : String
  pub value : W
  pub baseline : W
  pub deviation : W
  pub direction : String

unfoldable pub topology_depth : List (String × ℕ)
topology_depth =
    ("api-gateway", 0)
    ∷ ("order", 1)
    ∷ ("payment", 2)
    ∷ ("fulfillment", 3)
    ∷ ("notification", 3)
    ∷ []

unfoldable pub queue_owner : List (String × String)
queue_owner =
    ("order-queue", "order")
    ∷ ("payment-queue", "payment")
    ∷ ("payment-dlq", "payment")
    ∷ ("notification-dlq", "notification")
    ∷ []

abbrev pub deeper_than : ℕ → List (String × ℕ) → List String
deeper_than depth [] = []
deeper_than depth ((svc, d) ∷ m) =
    let rest = deeper_than depth m in if ltb depth d then svc ∷ rest else rest

abbrev pub downstream_from : Option ℕ → List (String × ℕ) → List String
downstream_from none topology = []
downstream_from (some depth) topology = deeper_than depth topology

unfoldable pub downstream_of : String → List String
unfolding topology_depth
downstream_of service = downstream_from (lookup service topology_depth) topology_depth

unfoldable pub upstream_of : String → String
upstream_of service =
    if service == "payment"
    then "order"
    else if service == "fulfillment"
    then "payment"
    else if service == "notification"
    then "payment"
    else ""

abbrev owner_or : String → Option String → String
owner_or queue none = queue
owner_or queue (some owner) = owner

module _ {W : Type 0} where
  unfoldable pub service_for_signal : AnomalySignal W → String
  service_for_signal sig =
      if not (sig.service == "")
      then sig.service
      else owner_or sig.queue (lookup sig.queue queue_owner)

  unfoldable pub is_dlq_signal : AnomalySignal W → Bool
  is_dlq_signal sig = sig.metric == "dlq_depth"

  unfoldable pub signal_key : AnomalySignal W → String
  signal_key s = concat s.service (concat "|" (concat s.queue (concat "|" s.metric)))
