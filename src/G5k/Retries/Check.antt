-- ===== src/G5k/Retries/Check.antt =====
-- The check of deployed nodes sorts all nodes.
use enoslib.Base.{
  ℕ, zero, suc, ◌+◌, ◌*◌, ◌≤◌, ◌≡◌, refl, sym, ap, ◌∙◌, String, Bool, true, false, ◌&&◌, some, List,
  [], ◌∷◌, ◌++◌, map, All, All-append, ◌⊎◌, arith, if◌then◌else◌, Bool-cases, inl, inr,
}
use mathlib.Core.List.{map-append}
use mathlib.Core.Path.{subst}
use enoslib.Base.Eq.{String_eq, ◌==◌, ==→≡}
use enoslib.Base.Count.{count, SameItems, count-append, map-SameItems}
use enoslib.Api.Results.{
  Ended, failed, passed, skipped, unreachable, status_of, status_ok, Event, ExecutionRecord, store,
  is_ok, from_ansible, from_play,
}
use enoslib.Api.Run.{Run, returned, run_play, run_ansible, run_from, handle_errors}
use enoslib.G5k.Networks.{G5kHost, G5kNetwork}
use enoslib.G5k.Names.{translate}
use enoslib.G5k.Retries.{
  Play, check_name, check_play, copies, with_names, fqdns, Partition, checked, sort_nodes,
  results_of, check_deployed_nodes,
}

-- Each host stands on one side, as often as it stands in the list.
abbrev pub Splits : List G5kHost → Partition → Type 0
Splits hosts sides =
    (a : String) → count a (fqdns sides.0) + count a (fqdns sides.1) ≡ count a (fqdns hosts)

-- No name stands twice.
abbrev pub AreDistinct : List G5kHost → Type 0
AreDistinct hosts = (a : String) → count a (fqdns hosts) ≤ 1

-- The names of the nodes in the network lead back to the nodes.
abbrev pub AreNamed : G5kNetwork → List G5kHost → Type 0
AreNamed net hosts = All (λ h. translate net true (translate net false h.fqdn) ≡ h.fqdn) hosts

-- The hosts on which the check ended.
abbrev pub answered : {V : Type 0} → List (Event V) → List String
answered [] = []
answered (e ∷ events) = if e.task == check_name then e.host ∷ answered events else answered events

-- Ansible ends the check once on each host.
abbrev pub AnswersOnce : {W V : Type 0} → (W → Play → W × List (Event V)) → Type 0
AnswersOnce {W = W} {V = V} execute =
    (w : W) (addresses : List String)
    → SameItems (answered (execute w (check_play addresses)).1) addresses

-- The task ended well, or with errors that are to be ignored.
abbrev pub ended_ok : Ended → Bool
ended_ok (failed ignore_errors) = ignore_errors
ended_ok passed = true
ended_ok skipped = false
ended_ok unreachable = false

-- The check ended well at the address.
abbrev pub HasPassed : {V : Type 0} → String → List (Event V) → Type 0
HasPassed address [] = ⊥
HasPassed address (e ∷ events) =
    ((e.task == check_name ≡ true) × (ended_ok e.ended ≡ true) × (e.host ≡ address))
    ⊎ HasPassed address events

-- A check ended well at an address, of which this is the name in the network that was checked.
abbrev pub IsChecked : {W V : Type 0} → (W → Play → W × List (Event V)) → String → Type 0
IsChecked {W = W} execute fqdn =
    (w : W) × (addresses : List String) × (net : G5kNetwork) × (address : String) × HasPassed
      address (execute w (check_play addresses)).1
    × (translate net true address ≡ fqdn)

status-ended_ok : (e : Ended) → (status_of e == status_ok) ≡ ended_ok e
unfolding status_of
status-ended_ok (failed true) = refl
status-ended_ok (failed false) = refl
status-ended_ok passed = refl
status-ended_ok skipped = refl
status-ended_ok unreachable = refl

All-checked :
    {V : Type 0} (P : String → Type 0) (events : List (Event V))
    → ((address : String) → HasPassed address events → P address)
    → All P (checked true (from_ansible (map store events)))
unfolding checked from_ansible from_play store is_ok
All-checked P [] h = tt
All-checked P (e ∷ events) h =
    let rest = All-checked P events (λ address p. h address (inr p)) in
    elim (Bool-cases (e.task == check_name)) [
      | inr other ↦ rw other rest
      | inl check ↦
          rw (check, status-ended_ok e.ended)
            (elim (Bool-cases (ended_ok e.ended)) [
              | inl good ↦ rw good (h e.host (inl (check, good, refl)), rest)
              | inr bad ↦ rw bad rest
            ])
    ]

pub All-map :
    {A B : Type 0} (P : B → Type 0) (f : A → B) (xs : List A)
    → All (λ x. P (f x)) xs
    → All P (map f xs)
All-map P f [] h = tt
All-map P f (x ∷ xs) h = (h.0, All-map P f xs h.1)

All-copies_names :
    (P : String → Type 0) (n : G5kHost) (names : List String)
    → All P names
    → All (λ h. P h.fqdn) (copies n names)
unfolding copies
All-copies_names P n [] h = tt
All-copies_names P n (fqdn ∷ names) h = elim (Bool-cases (fqdn == n.fqdn)) [
  | inl same ↦ rw same (subst P (==→≡ fqdn n.fqdn same) h.0, All-copies_names P n names h.1)
  | inr other ↦ rw other (All-copies_names P n names h.1)
]

-- What holds of the names holds of the nodes that have them.
pub All-with_names_of :
    (P : String → Type 0) (nodes : List G5kHost) (names : List String)
    → All P names
    → All (λ h. P h.fqdn) (with_names nodes names)
unfolding with_names
All-with_names_of P [] names h = tt
All-with_names_of P (n ∷ nodes) names h =
    All-append (λ h. P h.fqdn) (copies n names) (with_names nodes names)
      (All-copies_names P n names h) (All-with_names_of P nodes names h)

pub count-fqdns-append :
    (a : String) (xs ys : List G5kHost)
    → count a (fqdns (xs ++ ys)) ≡ count a (fqdns xs) + count a (fqdns ys)
unfolding fqdns
count-fqdns-append a xs ys =
    ap (count a) (map-append (λ n. n.fqdn) xs ys)
    ∙ count-append a (map (λ n. n.fqdn) xs) (map (λ n. n.fqdn) ys)

count-copies :
    (a : String) (n : G5kHost) (names : List String)
    → count a (fqdns (copies n names)) ≡ (if n.fqdn == a then count a names else 0)
unfolding copies fqdns
count-copies a n [] = ground arith
count-copies a n (fqdn ∷ names) = ground (
  arith,
  count-copies a n names,
  String_eq.eqb_iff fqdn n.fqdn,
  String_eq.eqb_iff n.fqdn a,
  String_eq.eqb_iff fqdn a,
)

mul-suc : (m k : ℕ) → suc m * k ≡ k + m * k
mul-suc m k = omega arith

pub count-with_names :
    (a : String) (nodes : List G5kHost) (names : List String)
    → count a (fqdns (with_names nodes names)) ≡ count a (fqdns nodes) * count a names
unfolding with_names fqdns
count-with_names a [] names = omega arith
count-with_names a (n ∷ nodes) names =
    count-fqdns-append a (copies n names) (with_names nodes names)
    ∙ (elim (Bool-cases (n.fqdn == a)) [
      | inl same ↦
          rw (count-copies a n names, count-with_names a nodes names, same)
            (sym (mul-suc (count a (fqdns nodes)) (count a names)))
      | inr other ↦ rw (count-copies a n names, count-with_names a nodes names, other) (omega arith)
    ])

idempotent : (c o k : ℕ) → c ≤ 1 → o + k ≡ c → c * o + c * k ≡ c
idempotent zero o k h e = omega (arith, e)
idempotent (suc zero) o k h e = omega (arith, e)
idempotent (suc (suc c)) o k h e = absurd (omega (arith, h))

-- Names that are the nodes' in two parts split the nodes.
pub with_names-Splits :
    (nodes : List G5kHost) (oks kos : List String)
    → AreDistinct nodes
    → ((a : String) → count a oks + count a kos ≡ count a (fqdns nodes))
    → Splits nodes (with_names nodes oks, with_names nodes kos)
with_names-Splits nodes oks kos distinct e a =
    rw (count-with_names a nodes oks, count-with_names a nodes kos)
      (idempotent (count a (fqdns nodes)) (count a oks) (count a kos) (distinct a) (e a))

checked-answered :
    {V : Type 0} (a : String) (events : List (Event V))
    → count a (checked true (from_ansible (map store events)))
        + count a (checked false (from_ansible (map store events)))
      ≡ count a (answered events)
unfolding checked from_ansible from_play store is_ok
checked-answered a [] = omega arith
checked-answered a (e ∷ events) = ground (arith, checked-answered a events)

and_false : (b : Bool) → (b && false) ≡ false
and_false true = refl
and_false false = refl

handle_errors-true :
    {W V : Type 0} (w : W) (records : List (ExecutionRecord V)) (next : Run W V)
    → handle_errors true w records next ≡ next
unfolding handle_errors
handle_errors-true w records next = simp and_false

names-back :
    (net : G5kNetwork) (nodes : List G5kHost)
    → AreNamed net nodes
    → map (λ fqdn. translate net true fqdn) (map (λ fqdn. translate net false fqdn) (fqdns nodes))
      ≡ fqdns nodes
unfolding fqdns
names-back net [] h = refl
names-back net (n ∷ nodes) h = cc (h.0, names-back net nodes h.1)

module _ {W V : Type 0} (execute : W → Play → W × List (Event V)) where
  -- A run that goes on after errors returns.
  run_play-returned :
      (play : Play) (w : W)
      → results_of (run_play execute true play w)
        ≡ some ((execute w play).0, from_ansible (map store (execute w play).1))
  unfolding run_play run_ansible run_from handle_errors results_of
  run_play-returned play w = ap results_of (
      handle_errors-true (execute w play).0 (map store (execute w play).1)
        (returned (execute w play).0 (from_ansible (map store (execute w play).1))))

  -- The check of nodes returns and finds each of them deployed or not, and deployed only if the check
  -- ended well on it.
  pub check_deployed_nodes-Splits :
      (w : W) (net : G5kNetwork) (nodes : List G5kHost)
      → AnswersOnce execute
      → AreDistinct nodes
      → AreNamed net nodes
      → (w' : W) × (sides : Partition) × (check_deployed_nodes execute w net nodes
          ≡ some (w', sides))
        × Splits nodes sides
        × All (λ h. IsChecked execute h.fqdn) sides.0
  unfolding check_deployed_nodes sort_nodes
  check_deployed_nodes-Splits w net nodes once distinct named_back =
      let addresses = map (λ fqdn. translate net false fqdn) (fqdns nodes) in
      let (w', events) = execute w (check_play addresses) in
      let results = from_ansible (map store events) in
      let oks = checked true results in
      let kos = checked false results in
      let back = λ (fqdn : String). translate net true fqdn in
      (
        w',
        sort_nodes net nodes results,
        rw (run_play-returned (check_play addresses) w) refl,
        with_names-Splits nodes (map back oks) (map back kos) distinct (λ a.
            sym (count-append a (map back oks) (map back kos))
            ∙ ap (count a) (sym (map-append back oks kos))
            ∙ map-SameItems back (oks ++ kos) addresses
                (λ b. count-append b oks kos ∙ checked-answered b events ∙ once w addresses b) a
            ∙ ap (count a) (names-back net nodes named_back)),
        All-with_names_of (IsChecked execute) nodes (map back oks) (
            All-map (IsChecked execute) back oks (
              All-checked (λ address. IsChecked execute (back address)) events
                (λ address p. (w, addresses, net, address, p, refl)))),
      )
