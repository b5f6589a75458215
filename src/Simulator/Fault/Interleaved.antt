-- ===== src/Simulator/Fault/Interleaved.antt =====
-- Calls of the fault engine that overlap: the locks and the inserts of Activate and Deactivate in
-- internal/simulator/fault_engine.go are steps of their own.
use monitower.Prelude.{
  ℕ, String, List, [], ◌∷◌, ◌++◌, map, map-append, Option, none, some, ◌≡◌, ◌≢◌, refl, ap, ◌∙◌, sym,
  string_eq, arith, All, ==_iff, inl, inr, Bool-cases, is_some, append_assoc,
}
use monitower.Prelude.Dict.{
  lookup, lookup-insert, lookup-erase, insert-Distinct, erase-Distinct, Distinct,
}
use monitower.Simulator.Fault.{
  FaultType, FaultEventRow, FaultEngine, Change, write_fault_event, new_fault_engine,
  activate_locked, deactivate_locked, write_change,
}
use monitower.Simulator.Fault.Log.{after_row, replay_from, replay, ok_at, row_of}

-- The engine, and the changes whose calls have released the mutex and are before their insert, in the
-- order in which they released it.
pub record System : Type 0 where
  pub engine : FaultEngine
  pub pending : List Change

abbrev pub start : System
start = record { engine = new_fault_engine; pending = [] }

abbrev pub with_change : Option Change → List Change → List Change
with_change none pending = pending
with_change (some c) pending = pending ++ c ∷ []

-- An insert may overtake those about other faults.
pub data Step (s : System) : System → Type 0 where
  activates :
      (fault : FaultType) (origin : String)
      → Step s (
          let (e, change) = activate_locked fault origin s.engine in
          record { engine = e; pending = with_change change s.pending })
  deactivates :
      (fault : FaultType)
      → Step s (
          let (e, change) = deactivate_locked fault s.engine in
          record { engine = e; pending = s.pending ++ change ∷ [] })
  inserts :
      (now : ℕ) (before : List Change) (c : Change) (behind : List Change)
      → s.pending ≡ before ++ c ∷ behind
      → All (λ d. d.fault_type ≢ c.fault_type) before
      → Step s (record {
        engine = write_change (ok_at now) (some c) s.engine;
        pending = before ++ behind;
      })

pub data Reach : System → Type 0 where
  here : Reach start
  then_step : {s s' : System} → Reach s → Step s s' → Reach s'

-- The row that a change becomes, whenever its insert is made.
abbrev pub row_for : Change → FaultEventRow
row_for c = row_of 0 c.fault_type c.action c.origin

-- The table, with the rows still to come, and the map tell the same; the map has each fault once.
pub record IsLogged (s : System) : Type 0 where
  pub agrees :
      (f : FaultType)
      → lookup f s.engine.active ≡ replay f (s.engine.fault_events ++ map row_for s.pending)
  pub distinct : Distinct s.engine.active

replay_from-append :
    (f : FaultType) (origin : Option String) (xs ys : List FaultEventRow)
    → replay_from f origin (xs ++ ys) ≡ replay_from f (replay_from f origin xs) ys
replay_from-append f origin [] ys = refl
replay_from-append f origin (x ∷ xs) ys = replay_from-append f (after_row f origin x) xs ys

-- One more change behind all others.
replay_pending :
    (f : FaultType) (rows : List FaultEventRow) (pending : List Change) (c : Change)
    → replay f (rows ++ map row_for (pending ++ c ∷ []))
      ≡ after_row f (replay f (rows ++ map row_for pending)) (row_for c)
replay_pending f rows pending c =
    ap (λ l. replay f (rows ++ l)) (map-append row_for pending (c ∷ []))
    ∙ ap (replay f) (sym (append_assoc rows (map row_for pending) (row_for c ∷ [])))
    ∙ replay_from-append f none (rows ++ map row_for pending) (row_for c ∷ [])

-- A change that overtakes those about other faults.
overtakes :
    (now : ℕ) (f : FaultType) (origin : Option String) (before : List Change) (c : Change)
    (behind : List Change)
    → All (λ d. d.fault_type ≢ c.fault_type) before
    → replay_from f origin (map row_for (before ++ c ∷ behind))
      ≡ replay_from f
          (after_row f origin (row_of now c.fault_type c.action c.origin))
          (map row_for (before ++ behind))
overtakes now f origin [] c behind h = refl
overtakes now f origin (d ∷ before) c behind h =
    overtakes now f (after_row f origin (row_for d)) before c behind h.1
    ∙ ap (λ o. replay_from f o (map row_for (before ++ behind))) swapped
  where
    swapped :
        after_row f (after_row f origin (row_for d)) (row_of now c.fault_type c.action c.origin)
        ≡ after_row f (after_row f origin (row_of now c.fault_type c.action c.origin)) (row_for d)
    swapped = ground (arith, h.0, ==_iff d.fault_type f, ==_iff c.fault_type f)

activates-IsLogged :
    (fault : FaultType) (origin : String) (s : System)
    → IsLogged s
    → (let (e, change) = activate_locked fault origin s.engine in
        IsLogged (record { engine = e; pending = with_change change s.pending }))
unfolding activate_locked
activates-IsLogged fault origin s h = elim (Bool-cases (is_some (lookup fault s.engine.active))) [
  | inl e ↦ rw e (record { agrees = h.agrees; distinct = h.distinct })
  | inr e ↦ rw e (record {
    agrees = λ f. ground (
      arith,
      h.agrees f,
      lookup-insert fault f origin s.engine.active,
      replay_pending f s.engine.fault_events s.pending
          (record { fault_type = fault; action = "start"; origin = origin }),
    );
    distinct = insert-Distinct fault origin s.engine.active h.distinct;
  })
]

deactivates-IsLogged :
    (fault : FaultType) (s : System)
    → IsLogged s
    → (let (e, change) = deactivate_locked fault s.engine in
        IsLogged (record { engine = e; pending = s.pending ++ change ∷ [] }))
unfolding deactivate_locked
deactivates-IsLogged fault s h = record {
  agrees = λ f. ground (
    arith,
    h.agrees f,
    lookup-erase fault f s.engine.active,
    replay_pending f s.engine.fault_events s.pending (deactivate_locked fault s.engine).1,
  );
  distinct = erase-Distinct fault s.engine.active h.distinct;
}

inserts-IsLogged :
    (now : ℕ) (before : List Change) (c : Change) (behind : List Change) (s : System)
    → s.pending ≡ before ++ c ∷ behind
    → All (λ d. d.fault_type ≢ c.fault_type) before
    → IsLogged s
    → IsLogged
        (record { engine = write_change (ok_at now) (some c) s.engine; pending = before ++ behind })
unfolding write_change write_fault_event
inserts-IsLogged now before c behind s split apart h = record {
  agrees = λ f.
      h.agrees f
      ∙ ap (λ l. replay f (s.engine.fault_events ++ map row_for l)) split
      ∙ replay_from-append f none s.engine.fault_events (map row_for (before ++ c ∷ behind))
      ∙ overtakes now f (replay f s.engine.fault_events) before c behind apart
      ∙ sym (
          replay_from-append f (replay f s.engine.fault_events)
            (row_of now c.fault_type c.action c.origin ∷ []) (map row_for (before ++ behind)))
      ∙ sym (
          replay_from-append f none s.engine.fault_events
            (row_of now c.fault_type c.action c.origin ∷ map row_for (before ++ behind)))
      ∙ ap (replay f) (
          sym (
            append_assoc s.engine.fault_events (row_of now c.fault_type c.action c.origin ∷ [])
              (map row_for (before ++ behind))));
  distinct = h.distinct;
}

Step-IsLogged : (s s' : System) → Step s s' → IsLogged s → IsLogged s'
Step-IsLogged s _ (activates fault origin) h = activates-IsLogged fault origin s h
Step-IsLogged s _ (deactivates fault) h = deactivates-IsLogged fault s h
Step-IsLogged s _ (inserts now before c behind split apart) h =
    inserts-IsLogged now before c behind s split apart h

-- Whatever calls of the engine overlap, while the database accepts every insert and the inserts about
-- one fault are made in the order in which their calls released the mutex: the table fault_events, with
-- the rows of the calls before their insert, tells for each fault whether it is active and with which
-- origin; and the map holds no fault twice.
pub Reach-IsLogged : (s : System) → Reach s → IsLogged s
unfolding new_fault_engine
Reach-IsLogged _ here = record { agrees = λ f. refl; distinct = tt }
Reach-IsLogged _ (then_step {s} {s'} r step) = Step-IsLogged s s' step (Reach-IsLogged s r)
