-- ===== src/Monitor/Api/Lookup.antt =====
-- The answer to a request for one incident.
use Prim.Native.Char.{code}
use Prim.Native.String.{◌++◌ as concat}
use text.Mathlib.TextLemmas.{nil-append, cons-append}
use monitower.Prelude.{
  ℕ, Bool, true, false, ◌==◌, if◌then◌else◌, String, List, [], ◌∷◌, Option, none, some, Memᴰ, ◌≡◌,
  ◌≢◌, refl, sym, ap, subst, ◌∙◌, ◌⊎◌, inl, inr, Bool-cases, All, ==_iff, ==_self, string_eq,
  nat_eq,
}
use monitower.Prelude.Int.{ℤ, pos, negsuc}
use monitower.Prelude.Text.{split, has_char, split_plain}
use monitower.Prelude.Decimal.{atoi}
use monitower.Monitor.Incidents.{
  Incident, Store, ok, continue, statement, refused, find_id, find_key, get_by_id,
}
use monitower.Monitor.Api.{
  Request, Response, incident, handle_incidents, method_not_allowed, trim_prefix_or, first_or_empty,
  id_part, by_id, found, handle_incident_by_id,
}

trim_prefix-concat : (whole p s : String) → trim_prefix_or whole p (concat p s) ≡ s
trim_prefix-concat whole String.[] s = nil-append s
trim_prefix-concat whole (String.◌∷◌ c p) s =
    ap (trim_prefix_or whole (String.◌∷◌ c p)) (cons-append c p s)
    ∙ rw (==_self (code c)) (trim_prefix-concat whole p s)

id_part-concat : (w : String) → has_char 47 w ≡ false → id_part (concat "/api/incidents/" w) ≡ w
unfolding id_part
id_part-concat w h =
    ap (λ s. first_or_empty (split 47 s))
      (trim_prefix-concat (concat "/api/incidents/" w) "/api/incidents/" w)
    ∙ ap first_or_empty (split_plain 47 w h)

-- Does the database refuse the next statement?
abbrev pub refuses : List Bool → Bool
refuses [] = false
refuses (b ∷ refusals) = b

-- The incident with that id, from a row of the table, or a status that says that no row has it.
abbrev pub Located : {W : Type 0} → ℤ → List Incident → Response W → Type 0
Located id rows r =
    ((inc : Incident) × Memᴰ inc rows
      × (pos inc.id ≡ id)
      × (r.status ≡ 200)
      × (r.body ≡ incident inc))
    ⊎ (All (λ inc. pos inc.id ≢ id) rows × (r.status ≡ 404))

abbrev pub Answered : {W : Type 0} → Option ℤ → Store → Response W → Type 0
Answered none s r = r.status ≡ 400
Answered (some id) s r =
    ((refuses s.refusals ≡ true) × (r.status ≡ 500))
    ⊎ ((refuses s.refusals ≡ false) × Located id s.incidents r)

true_not_false : ¬ (true ≡ false)
true_not_false h = cc

pos_injective : {m n : ℕ} → pos m ≡ pos n → m ≡ n
pos_injective h = cc

pos_ne_negsuc : {m n : ℕ} → pos m ≢ negsuc n
pos_ne_negsuc h = cc

Searched : ℕ → List Incident → Option Incident → Type 0
Searched id rows none = All (λ inc. pos inc.id ≢ pos id) rows
Searched id rows (some inc) = Memᴰ inc rows × (inc.id ≡ id)

find_id-Searched : (id : ℕ) (rows : List Incident) → Searched id rows (find_id id rows)
unfolding Searched find_id
find_id-Searched id [] = tt
find_id-Searched id (inc ∷ rows) = elim (Bool-cases (inc.id == id)) [
  | inl e ↦ rw e (Memᴰ.head refl, (==_iff inc.id id).0 e)
  | inr e ↦ rw e (further (other e) (find_id id rows) (find_id-Searched id rows))
]
  where
    other : (inc.id == id) ≡ false → pos inc.id ≢ pos id
    other e h = true_not_false (sym ((==_iff inc.id id).1 (pos_injective h)) ∙ e)

    further :
        pos inc.id ≢ pos id
        → (o : Option Incident) → Searched id rows o
        → Searched id (inc ∷ rows) o
    further h none all = (h, all)
    further h (some x) (m, e) = (Memᴰ.tail m, e)

no_negative : (n : ℕ) (rows : List Incident) → All (λ inc. pos inc.id ≢ negsuc n) rows
no_negative n [] = tt
no_negative n (inc ∷ rows) = (pos_ne_negsuc, no_negative n rows)

module _ {W : Type 0} where
  Located-found :
      (id : ℕ) (rows : List Incident) (s : Store) (o : Option Incident)
      → Searched id rows o
      → Located {W = W} (pos id) rows (found (ok o, s)).0
  unfolding Searched
  Located-found id rows s none all = inr (all, refl)
  Located-found id rows s (some inc) (m, e) = inl (inc, m, ap pos e, refl, refl)

  Located-find_key :
      (id : ℤ) (rows : List Incident) (s : Store)
      → Located {W = W} id rows (found (ok (find_key id rows), s)).0
  Located-find_key (pos id) rows s =
      Located-found id rows s (find_id id rows) (find_id-Searched id rows)
  Located-find_key (negsuc n) rows s = inr (no_negative n rows, refl)

  by_id-Answered : (id : ℤ) (s : Store) → Answered {W = W} (some id) s (found (get_by_id id s)).0
  unfolding get_by_id statement
  by_id-Answered id s = by_answer s.refusals
    where
      by_answer :
          (refusals : List Bool)
          → (let reply =
                (found {W = W}
                  (continue (refused refusals s) (λ _ s. (ok (find_key id s.incidents), s)))).0 in
              ((refuses refusals ≡ true) × (reply.status ≡ 500))
              ⊎ ((refuses refusals ≡ false) × Located id s.incidents reply))
      by_answer [] = inr (refl, Located-find_key id s.incidents s)
      by_answer (true ∷ refusals) = inl (refl, refl)
      by_answer (false ∷ refusals) =
          inr (refl, Located-find_key id s.incidents (record s { refusals = refusals }))

routed {ℓ} :
    {A : Type ℓ} (a b c : A) (method part : String)
    → method ≡ "GET"
    → (part == "") ≡ false
    → (if method == "GET" then (if part == "" then a else b) else c) ≡ b
routed a b c method part get some_text = rw ((==_iff method "GET").1 get, some_text) refl

-- A GET request for /api/incidents/ and a text that is not empty and has no slash: it is answered 400
-- if the text is no integer, 500 if the database refuses the query, 200 with the incident of a row
-- that has this id, and 404 if no row has it.
pub handle_incident_by_id-Answered :
    (W : Type 0) (order : List Incident → List Incident) (r : Request) (s : Store) (w : String)
    → r.method ≡ "GET"
    → r.path ≡ concat "/api/incidents/" w
    → has_char 47 w ≡ false
    → (w == "") ≡ false
    → Answered {W = W} (atoi w) s (handle_incident_by_id order r s).0
unfolding handle_incident_by_id
handle_incident_by_id-Answered W order r s w get path plain some_text =
    let same = ap id_part path ∙ id_part-concat w plain in
    subst {A = Response W × Store} (λ reply. Answered (atoi w) s reply.0)
      (sym (
        routed (handle_incidents order r s) (by_id (atoi (id_part r.path)) s)
          (method_not_allowed, s) r.method (id_part r.path) get
          (subst (λ q. (q == "") ≡ false) (sym same) some_text)
        ∙ ap (λ q. by_id (atoi q) s) same))
      (read (atoi w))
  where
    read : (id : Option ℤ) → Answered {W = W} id s (by_id id s).0
    read none = refl
    read (some id) = by_id-Answered id s
