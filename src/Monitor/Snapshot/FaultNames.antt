-- ===== src/Monitor/Snapshot/FaultNames.antt =====
-- The fault names, from the simulator's engine through the text column active_faults to the status of
-- a service.
use monitower.Prelude.{
  Bool, true, false, ◌==◌, String, List, [], ◌∷◌, map, ◌≡◌, refl, sym, ap, subst, ◌∙◌, inl, inr,
  Bool-cases, All, ==_iff, string_eq,
}
use monitower.Prelude.Text.{has_comma, join_comma, split, split-join_comma}
use monitower.Simulator.Fault.{
  FaultType, FaultEventRow, FaultEngine, new_fault_engine, get_active_faults,
}
use monitower.Simulator.Fault.Log.{Call, run}
use monitower.Simulator.Metrics.{active_fault_names}
use monitower.Monitor.Detect.{ServiceRow}
use monitower.Monitor.Snapshot.{trimmed_parts, parse_faults, build_service_status}
use monitower.Simulator.Fault.Names.{IsName, NamesActive, IsNamed, run-NamesActive}

abbrev AllNames : List String → Type 0
AllNames ws = All (λ w. IsName w) ws

trimmed_parts-AllNames : (ws : List String) → AllNames ws → trimmed_parts ws ≡ ws
unfolding trimmed_parts
trimmed_parts-AllNames [] h = refl
trimmed_parts-AllNames (w ∷ ws) h =
    rw (h.0.trimmed, h.0.some_text) (ap (λ rest. w ∷ rest) (trimmed_parts-AllNames ws h.1))

no_commas : (ws : List String) → AllNames ws → All (λ w. has_comma w ≡ false) ws
no_commas [] h = tt
no_commas (w ∷ ws) h = (h.0.no_comma, no_commas ws h.1)

true_not_false : ¬ (true ≡ false)
true_not_false h = cc

parse_faults-join_comma : (ws : List String) → AllNames ws → parse_faults (join_comma ws) ≡ ws
unfolding parse_faults split
parse_faults-join_comma [] h = unfold join_comma in refl
parse_faults-join_comma (w ∷ ws) h = elim (Bool-cases (join_comma (w ∷ ws) == "")) [
  | inl e ↦ absurd (
      not_empty (
        first_of (
          subst (λ s. split 44 s ≡ w ∷ ws) ((==_iff (join_comma (w ∷ ws)) "").0 e)
            (split-join_comma w ws (no_commas (w ∷ ws) h)))))
  | inr e ↦ rw e (
      ap trimmed_parts (split-join_comma w ws (no_commas (w ∷ ws) h))
      ∙ trimmed_parts-AllNames (w ∷ ws) h)
]
  where
    first_of : {w v : String} {ws vs : List String} → w ∷ ws ≡ v ∷ vs → v ≡ w
    first_of h = cc

    not_empty : ¬ (w ≡ "")
    not_empty k = absurd (true_not_false (sym ((==_iff w "").1 k) ∙ h.0.some_text))

abbrev pub names_of : FaultEngine → List String
names_of e = map (λ f. f.fault_type) (get_active_faults e)

names_of-AllNames :
    (m : List (FaultType × String)) (rows : List FaultEventRow)
    → NamesActive m
    → AllNames (names_of (record { active = m; fault_events = rows }))
unfolding get_active_faults
names_of-AllNames [] rows hs = tt
names_of-AllNames ((fault, origin) ∷ m) rows hs = (hs.0, names_of-AllNames m rows hs.1)

-- Whatever calls the fault engine got since it was made, each call of `Activate` past the API with a
-- name that is not empty and has no comma and no space at its ends, a row that carries the text of the
-- active faults is shown by the monitor with exactly the names of the faults that are active.
pub build_service_status-active_fault_names :
    {W : Type 0} (calls : List Call) (row : ServiceRow W) (anomalous : List (String × Bool))
    → All IsNamed calls
    → row.active_faults ≡ active_fault_names (run new_fault_engine calls)
    → (build_service_status row anomalous).active_faults ≡ names_of (run new_fault_engine calls)
unfolding build_service_status active_fault_names new_fault_engine
build_service_status-active_fault_names calls row anomalous h e =
    let engine = run new_fault_engine calls in
    ap parse_faults e
    ∙ parse_faults-join_comma (names_of engine) (
        names_of-AllNames engine.active engine.fault_events
          (run-NamesActive calls new_fault_engine h tt))
