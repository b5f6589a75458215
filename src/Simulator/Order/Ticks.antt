-- ===== src/Simulator/Order/Ticks.antt =====
-- Which orders the ticks of the order service send.
use monitower.Prelude.{map, Bool, List, [], ◌∷◌, ◌≡◌, refl, inl, inr, Bool-cases, All, All-append}
use monitower.Float64.{Float64}
use monitower.Simulator.Fault.{FaultEngine, is_fault_active, fault_poison_pill}
use monitower.Simulator.Order.{
  OrderService, Tick, is_dropped, order_message, process_tick, run_ticks,
}

abbrev pub is_poisoning : FaultEngine → Bool
is_poisoning engine = is_fault_active engine fault_poison_pill

module _ {W : Type 0} ⦃f : Float64 W⦄ where
  process_tick-poisoned :
      (engine : FaultEngine) (t : Tick W) (s : OrderService W)
      → All (λ m. m.poisoned ≡ is_poisoning engine) s.queue
      → All (λ m. m.poisoned ≡ is_poisoning engine) (process_tick engine t s).queue
  unfolding process_tick order_message
  process_tick-poisoned engine t s all = elim (Bool-cases (is_dropped t)) [
    | inl e ↦ rw e all
    | inr e ↦ elim (Bool-cases t.marshal_ok) [
      | inl m ↦ elim (Bool-cases t.send_cancelled) [
        | inl c ↦ rw (e, m, c) all
        | inr c ↦
            rw (e, m, c)
              (All-append (λ m. m.poisoned ≡ is_poisoning engine) s.queue (_ ∷ []) all (refl, tt))
      ]
      | inr m ↦ rw (e, m) all
    ]
  ]

  -- While the poison-pill fault stays active, every order that the service sends is poisoned, and while
  -- it stays inactive, none is, if that held of the orders sent before.
  pub run_ticks-poisoned :
      (engine : FaultEngine) (ticks : List (Tick W)) (s : OrderService W)
      → All (λ m. m.poisoned ≡ is_poisoning engine) s.queue
      → All
          (λ m. m.poisoned ≡ is_poisoning engine)
          (run_ticks (map (λ t. (engine, t)) ticks) s).queue
  unfolding run_ticks
  run_ticks-poisoned engine [] s all = all
  run_ticks-poisoned engine (t ∷ ticks) s all =
      run_ticks-poisoned engine ticks (process_tick engine t s)
        (process_tick-poisoned engine t s all)
