-- ===== src/Simulator/Fault/Names.antt =====
-- The names of the active faults, through all calls of the engine.
use monitower.Prelude.{
  false, ◌==◌, String, List, [], ◌∷◌, Option, none, some, is_some, ◌≡◌, refl, sym, subst, inl, inr,
  Bool-cases, All, ==_iff, arith, string_eq,
}
use monitower.Prelude.Dict.{lookup, insert, erase}
use monitower.Prelude.Text.{has_comma, trim_space}
use monitower.Simulator.Fault.{
  FaultType, ActiveFault, FaultEngine, Exec, write_fault_event, activate, activate_locked,
  deactivate, deactivate_locked, get_active_faults,
}
use monitower.Simulator.Fault.Api.{
  handle_inject, handle_stop, handle_reset, inject_known, deactivate_all, fault_origins,
}
use monitower.Simulator.Fault.Log.{
  Call, activates, deactivates, injects, stops, resets, ok_at, step, run,
}

-- A name that the column can carry: not empty, with no comma and no space at its ends.
pub record IsName (w : String) : Type 0 where
  pub no_comma : has_comma w ≡ false
  pub trimmed : trim_space w ≡ w
  pub some_text : (w == "") ≡ false

-- The faults of the map have such names.
abbrev pub NamesActive : List (FaultType × String) → Type 0
NamesActive m = All (λ (fault, origin). IsName fault) m

insert-NamesActive :
    (fault origin : String) (m : List (FaultType × String))
    → IsName fault
    → NamesActive m
    → NamesActive (insert fault origin m)
insert-NamesActive fault origin [] h hs = (h, tt)
insert-NamesActive fault origin ((j, o) ∷ m) h hs = elim (Bool-cases (j == fault)) [
  | inl e ↦ rw e (h, hs.1)
  | inr e ↦ rw e (hs.0, insert-NamesActive fault origin m h hs.1)
]

erase-NamesActive :
    (fault : String) (m : List (FaultType × String)) → NamesActive m → NamesActive (erase fault m)
erase-NamesActive fault [] hs = tt
erase-NamesActive fault ((j, o) ∷ m) hs = elim (Bool-cases (j == fault)) [
  | inl e ↦ rw e (erase-NamesActive fault m hs.1)
  | inr e ↦ rw e (hs.0, erase-NamesActive fault m hs.1)
]

write_fault_event-active :
    (x : Exec) (fault action origin : String) (e : FaultEngine)
    → (write_fault_event x fault action origin e).active ≡ e.active
unfolding write_fault_event
write_fault_event-active x fault action origin e = ground arith

activate-NamesActive :
    (x : Exec) (fault origin : String) (e : FaultEngine)
    → IsName fault
    → NamesActive e.active
    → NamesActive (activate x fault origin e).active
unfolding activate activate_locked
activate-NamesActive x fault origin e h hs = elim (Bool-cases (is_some (lookup fault e.active))) [
  | inl k ↦ rw k hs
  | inr k ↦ rw k (
      subst NamesActive (sym (write_fault_event-active x fault "start" origin _))
        (insert-NamesActive fault origin e.active h hs))
]

deactivate-NamesActive :
    (x : Exec) (fault : String) (e : FaultEngine)
    → NamesActive e.active
    → NamesActive (deactivate x fault e).active
unfolding deactivate deactivate_locked
deactivate-NamesActive x fault e hs =
    subst NamesActive (sym (write_fault_event-active x fault "stop" _ _))
      (erase-NamesActive fault e.active hs)

deactivate_all-NamesActive :
    (x : FaultType → Exec) (snapshot : List ActiveFault) (e : FaultEngine)
    → NamesActive e.active
    → NamesActive (deactivate_all x snapshot e).active
unfolding deactivate_all
deactivate_all-NamesActive x [] e hs = hs
deactivate_all-NamesActive x (af ∷ snapshot) e hs =
    deactivate_all-NamesActive x snapshot _
      (deactivate-NamesActive (x af.fault_type) af.fault_type e hs)

-- The six faults that the API knows.
IsName-of_lookup :
    (fault origin : String) (m : List (FaultType × String))
    → NamesActive m
    → lookup fault m ≡ some origin
    → IsName fault
IsName-of_lookup fault origin [] hs h = cc
IsName-of_lookup fault origin ((j, o) ∷ m) hs h = elim (Bool-cases (j == fault)) [
  | inl e ↦ subst IsName ((==_iff j fault).0 e) hs.0
  | inr e ↦ IsName-of_lookup fault origin m hs.1 (rw e at h)
]

fault_origins-NamesActive : NamesActive fault_origins
unfolding fault_origins trim_space
fault_origins-NamesActive = (
  record { no_comma = refl; trimmed = refl; some_text = refl },
  (
    record { no_comma = refl; trimmed = refl; some_text = refl },
    (
      record { no_comma = refl; trimmed = refl; some_text = refl },
      (
        record { no_comma = refl; trimmed = refl; some_text = refl },
        (
          record { no_comma = refl; trimmed = refl; some_text = refl },
          (record { no_comma = refl; trimmed = refl; some_text = refl }, tt),
        ),
      ),
    ),
  ),
)

injected-NamesActive :
    (x : Exec) (fault : String) (known : Option String) (e : FaultEngine)
    → lookup fault fault_origins ≡ known
    → NamesActive e.active
    → NamesActive (inject_known x fault known e).0.active
unfolding inject_known
injected-NamesActive x fault none e k hs = hs
injected-NamesActive x fault (some origin) e k hs =
    activate-NamesActive x fault origin e
      (IsName-of_lookup fault origin fault_origins fault_origins-NamesActive k) hs

handle_inject-NamesActive :
    (x : Exec) (request : Option String) (e : FaultEngine)
    → NamesActive e.active
    → NamesActive (handle_inject x request e).0.active
unfolding handle_inject
handle_inject-NamesActive x none e hs = hs
handle_inject-NamesActive x (some fault) e hs = elim (Bool-cases (fault == "")) [
  | inl k ↦ rw k hs
  | inr k ↦ rw k (injected-NamesActive x fault (lookup fault fault_origins) e refl hs)
]

-- A call that names the fault itself, past the API, gives it a name that the column can carry.
abbrev pub IsNamed : Call → Type 0
IsNamed (activates t fault origin) = IsName fault
IsNamed (deactivates t fault) = Unit
IsNamed (injects t request) = Unit
IsNamed (stops t) = Unit
IsNamed (resets t) = Unit

step-NamesActive :
    (c : Call) (e : FaultEngine) → IsNamed c → NamesActive e.active → NamesActive (step e c).active
unfolding step handle_stop handle_reset
step-NamesActive (activates t fault origin) e h hs =
    activate-NamesActive (ok_at t) fault origin e h hs
step-NamesActive (deactivates t fault) e h hs = deactivate-NamesActive (ok_at t) fault e hs
step-NamesActive (injects t request) e h hs = handle_inject-NamesActive (ok_at t) request e hs
step-NamesActive (stops t) e h hs =
    deactivate_all-NamesActive (λ f. ok_at (t f)) (get_active_faults e) e hs
step-NamesActive (resets t) e h hs =
    deactivate_all-NamesActive (λ f. ok_at (t f)) (get_active_faults e) e hs

pub run-NamesActive :
    (calls : List Call) (e : FaultEngine)
    → All IsNamed calls
    → NamesActive e.active
    → NamesActive (run e calls).active
unfolding run
run-NamesActive [] e h hs = hs
run-NamesActive (c ∷ calls) e h hs =
    run-NamesActive calls (step e c) h.1 (step-NamesActive c e h.0 hs)
