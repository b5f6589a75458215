-- ===== src/Monitor/Correlator/Affected.antt =====
-- The affected services of an event: `buildAffected`.
use monitower.Prelude.{
  ℕ, Bool, false, not, ◌&&◌, ◌||◌, ltb, ◌==◌, ==_iff, if◌then◌else◌, String, List, [], ◌∷◌, Option,
  none, some, ◌≡◌, refl, ap, ◌∙◌, inl, inr, Bool-cases, any, arith, string_eq,
}
use monitower.Prelude.Dict.{lookup, Distinct}
use monitower.Monitor.Signal.{
  AnomalySignal, topology_depth, downstream_of, deeper_than, downstream_from, service_for_signal,
}
use monitower.Monitor.Correlator.Build.{
  contains, mark_downstream, mark_signals, insert_string, sort_strings, build_affected,
}

contains-insert_string :
    (x y : String) (ys : List String) → contains x (insert_string y ys) ≡ (y == x || contains x ys)
unfolding insert_string contains
contains-insert_string x y [] = refl
contains-insert_string x y (z ∷ ys) = ground (arith, contains-insert_string x y ys)

contains-sort_strings :
    (x : String) (ys : List String) → contains x (sort_strings ys) ≡ contains x ys
unfolding sort_strings contains
contains-sort_strings x [] = refl
contains-sort_strings x (y ∷ ys) =
    contains-insert_string x y (sort_strings ys) ∙ ap (◌||◌ (y == x)) (contains-sort_strings x ys)

-- No text stands in the list twice.
abbrev pub Once : List String → Type 0
Once [] = Unit
Once (y ∷ ys) = (contains y ys ≡ false) × Once ys

insert_string-Once :
    (y : String) (ys : List String) → contains y ys ≡ false → Once ys → Once (insert_string y ys)
unfolding insert_string contains
insert_string-Once y [] h o = (refl, tt)
insert_string-Once y (z ∷ ys) h o =
    ground (arith, ==_iff y z, ==_iff z y, contains-insert_string z y ys, insert_string-Once y ys)

sort_strings-Once : (ys : List String) → Once ys → Once (sort_strings ys)
unfolding sort_strings
sort_strings-Once [] o = tt
sort_strings-Once (y ∷ ys) o =
    insert_string-Once y (sort_strings ys) (contains-sort_strings y ys ∙ o.0)
      (sort_strings-Once ys o.1)

contains-marked :
    (x svc d : String) (seen : List String)
    → contains x (if svc == d && not (contains d seen) then d ∷ seen else seen)
      ≡ (contains x seen || (svc == x && d == x))
unfolding contains
contains-marked x svc d seen =
    ground
      (arith, ==_iff svc d, ==_iff svc x, ==_iff d x, λ (e : d ≡ x). ap (λ y. contains y seen) e)

contains-mark_downstream :
    (x svc : String) (downstream seen : List String)
    → contains x (mark_downstream svc downstream seen)
      ≡ (contains x seen || (svc == x && contains x downstream))
unfolding mark_downstream contains
contains-mark_downstream x svc [] seen = ground arith
contains-mark_downstream x svc (d ∷ downstream) seen =
    contains-mark_downstream x svc downstream _
    ∙ regroup (contains x seen) (svc == x) (d == x) (contains x downstream)
        (contains-marked x svc d seen)
  where
    regroup :
        {marked : Bool} (seen svc head rest : Bool)
        → marked ≡ (seen || (svc && head))
        → (marked || (svc && rest)) ≡ (seen || (svc && (head || rest)))
    regroup seen svc head rest e = ground arith

mark_downstream-Once :
    (svc : String) (downstream seen : List String)
    → Once seen
    → Once (mark_downstream svc downstream seen)
unfolding mark_downstream
mark_downstream-Once svc [] seen o = o
mark_downstream-Once svc (d ∷ downstream) seen o =
    mark_downstream-Once svc downstream _ (elim (Bool-cases (svc == d && not (contains d seen))) [
      | inl e ↦ rw e (ground arith, o)
      | inr e ↦ rw e o
    ])

module _ {W : Type 0} where
  contains-mark_signals :
      (x : String) (downstream : List String) (signals : List (AnomalySignal W))
      (seen : List String)
      → contains x (mark_signals downstream signals seen) ≡ (
          contains x seen
          || (contains x downstream && any (λ sig. service_for_signal sig == x) signals))
  unfolding mark_signals
  contains-mark_signals x downstream [] seen = ground arith
  contains-mark_signals x downstream (sig ∷ signals) seen = ground (
    arith,
    contains-mark_signals x downstream signals
        (mark_downstream (service_for_signal sig) downstream seen),
    contains-mark_downstream x (service_for_signal sig) downstream seen,
  )

  mark_signals-Once :
      (downstream : List String) (signals : List (AnomalySignal W)) (seen : List String)
      → Once seen
      → Once (mark_signals downstream signals seen)
  unfolding mark_signals
  mark_signals-Once downstream [] seen o = o
  mark_signals-Once downstream (sig ∷ signals) seen o =
      mark_signals-Once downstream signals _ (mark_downstream-Once _ downstream seen o)

-- Is the service further down the pipeline than the root? Services outside of it are not.
abbrev pub is_deeper : Option ℕ → Option ℕ → Bool
is_deeper (some root) (some depth) = ltb root depth
is_deeper _ _ = false

contains-deeper_than :
    (x : String) (depth : ℕ) (topology : List (String × ℕ))
    → Distinct topology
    → contains x (deeper_than depth topology) ≡ is_deeper (some depth) (lookup x topology)
unfolding contains
contains-deeper_than x depth [] o = refl
contains-deeper_than x depth ((svc, d) ∷ topology) o = ground (
  arith,
  ==_iff svc x,
  contains-deeper_than x depth topology o.1,
  λ (e : svc ≡ x). ap (λ y. lookup y topology) e,
)

contains-downstream_from :
    (x : String) (root : Option ℕ) (topology : List (String × ℕ))
    → Distinct topology
    → contains x (downstream_from root topology) ≡ is_deeper root (lookup x topology)
unfolding contains
contains-downstream_from x none topology o = refl
contains-downstream_from x (some depth) topology o = contains-deeper_than x depth topology o

contains-downstream_of :
    (x root : String)
    → contains x (downstream_of root)
      ≡ is_deeper (lookup root topology_depth) (lookup x topology_depth)
unfolding downstream_of
contains-downstream_of x root =
    contains-downstream_from x (lookup root topology_depth) topology_depth
      (refl, (refl, (refl, (refl, (refl, tt)))))

-- The affected services of a group are the root, and those services further down the pipeline than
-- the root that a signal of the group is about; no service is listed twice.
pub build_affected_lem :
    {W : Type 0} (root : String) (signals : List (AnomalySignal W))
    → ((x : String)
        → contains x (build_affected root signals) ≡ (
            root == x
            || (is_deeper (lookup root topology_depth) (lookup x topology_depth)
                && any (λ sig. service_for_signal sig == x) signals)))
      × Once (build_affected root signals)
unfolding build_affected
build_affected_lem root signals = (
  λ x.
      contains-sort_strings x (mark_signals (downstream_of root) signals (root ∷ []))
      ∙ contains-mark_signals x (downstream_of root) signals (root ∷ [])
      ∙ rw (contains-downstream_of x root) (ground arith),
  sort_strings-Once _ (mark_signals-Once (downstream_of root) signals (root ∷ []) (refl, tt)),
)
