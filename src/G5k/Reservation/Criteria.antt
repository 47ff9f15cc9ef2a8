-- ===== src/G5k/Reservation/Criteria.antt =====
-- What is asked of each site, and what a reservation makes of it.
use Prim.Native.String.{◌++◌ as ◌<>◌}
use enoslib.Base.{
  ℕ, ◌≡◌, refl, sym, ap, ◌∙◌, String, Bool, true, false, ◌||◌, not, Option, none, some, List, [],
  ◌∷◌, ◌++◌, map, filterb, if◌then◌else◌, Bool-cases, inl, inr,
}
use mathlib.Core.List.{append_assoc, append-nil}
use enoslib.Base.Eq.{String_eq, ◌==◌, ==→≡}
use enoslib.Base.Dict.{get, put, get-put, has_key, IsMapping, put-IsMapping}
use enoslib.Base.Sort.{insert, sorted}
use enoslib.G5k.Configuration.{GroupConfiguration, NetworkConfiguration}
use enoslib.G5k.Reservation.{
  Oar, Criteria, or_empty, append_criterion, append_criteria, group_oar, network_criterion,
  build_reservation_criteria, join_by, names_servers, in_order, given, Demand, JobSpec, job_spec,
  job_specs,
}

-- What is asked of a site, in order.
abbrev pub asked_of : String → List Oar → List String
asked_of site [] = []
asked_of site ((s, none) ∷ oars) = asked_of site oars
asked_of site ((s, some criterion) ∷ oars) =
    if s == site then criterion ∷ asked_of site oars else asked_of site oars

-- An entry that is there only if it holds something.
abbrev pub grown : Option (List String) → List String → Option (List String)
grown none [] = none
grown none (x ∷ xs) = some (x ∷ xs)
grown (some l) xs = some (l ++ xs)

grown-cons :
    (old : Option (List String)) (x : String) (xs : List String)
    → grown (some (or_empty old ++ x ∷ [])) xs ≡ grown old (x ∷ xs)
unfolding or_empty
grown-cons none x xs = refl
grown-cons (some l) x xs = ap (λ t. some t) (append_assoc l (x ∷ []) xs)

grown-nil : (old : Option (List String)) → grown old [] ≡ old
grown-nil none = refl
grown-nil (some l) = ap (λ t. some t) (append-nil l)

get-append_criteria :
    (site : String) (oars : List Oar) (criteria : Criteria)
    → get site (append_criteria oars criteria) ≡ grown (get site criteria) (asked_of site oars)
unfolding append_criteria append_criterion
get-append_criteria site [] criteria = sym (grown-nil (get site criteria))
get-append_criteria site ((s, none) ∷ oars) criteria = get-append_criteria site oars criteria
get-append_criteria site ((s, some criterion) ∷ oars) criteria =
    let more = or_empty (get s criteria) ++ criterion ∷ [] in
    get-append_criteria site oars (put s more criteria)
    ∙ rw (get-put s site more criteria) (elim (Bool-cases (s == site)) [
      | inl same ↦ rw same (
          ap (λ t. grown (some (or_empty (get t criteria) ++ criterion ∷ [])) (asked_of site oars))
            (==→≡ s site same)
          ∙ grown-cons (get site criteria) criterion (asked_of site oars))
      | inr other ↦ rw other refl
    ])

append_criteria-IsMapping :
    (oars : List Oar) (criteria : Criteria)
    → IsMapping criteria
    → IsMapping (append_criteria oars criteria)
unfolding append_criteria append_criterion
append_criteria-IsMapping [] criteria m = m
append_criteria-IsMapping ((s, none) ∷ oars) criteria m = append_criteria-IsMapping oars criteria m
append_criteria-IsMapping ((s, some criterion) ∷ oars) criteria m =
    let more = or_empty (get s criteria) ++ criterion ∷ [] in
    append_criteria-IsMapping oars (put s more criteria) (put-IsMapping s more criteria m)

-- Sorting by a test puts what passes in front and keeps the orders.
module _ (p : String → Bool) where
  le : String → String → Bool
  le x y = p x || not (p y)

  insert-front : (x : String) (ys : List String) → p x ≡ true → insert le x ys ≡ x ∷ ys
  unfolding insert le
  insert-front x [] h = refl
  insert-front x (y ∷ ys) h = rw h refl

  insert-behind :
      (x : String) (xs ys : List String)
      → p x ≡ false
      → insert le x (filterb p xs ++ ys) ≡ filterb p xs ++ insert le x ys
  unfolding insert le
  insert-behind x [] ys h = refl
  insert-behind x (y ∷ xs) ys h = elim (Bool-cases (p y)) [
    | inl passes ↦ rw (passes, h, passes) (ap (λ l. y ∷ l) (insert-behind x xs ys h))
    | inr fails ↦ rw fails (insert-behind x xs ys h)
  ]

  insert-others :
      (x : String) (ys : List String)
      → p x ≡ false
      → insert le x (filterb (λ y. not (p y)) ys) ≡ x ∷ filterb (λ y. not (p y)) ys
  unfolding insert le
  insert-others x [] h = refl
  insert-others x (y ∷ ys) h = elim (Bool-cases (p y)) [
    | inl passes ↦ rw passes (insert-others x ys h)
    | inr fails ↦ rw (fails, h, fails) refl
  ]

  sorted-filterb : (xs : List String) → sorted le xs ≡ filterb p xs ++ filterb (λ y. not (p y)) xs
  unfolding sorted
  sorted-filterb [] = refl
  sorted-filterb (x ∷ xs) =
      let rest = filterb (λ y. not (p y)) xs in
      ap (insert le x) (sorted-filterb xs) ∙ (elim (Bool-cases (p x)) [
        | inl h ↦ rw h (insert-front x (filterb p xs ++ rest) h)
        | inr h ↦
            rw h (insert-behind x xs rest h ∙ ap (λ l. filterb p xs ++ l) (insert-others x xs h))
      ])

-- What is asked of a site: by the groups of machines, then by the networks.
abbrev pub asked :
    (ℕ → String) → List GroupConfiguration → List NetworkConfiguration → String → List String
asked str machines networks site =
    asked_of site (map (group_oar str) machines)
    ++ asked_of site (map (λ n. (n.site, network_criterion n.type)) networks)

-- The job that asks a site for resources, those that name servers first; none if nothing is asked.
abbrev pub requested : Demand → List String → List String → Option JobSpec
requested d all_types [] = none
requested d all_types (x ∷ xs) = some (record {
  name = d.job_name;
  types = all_types;
  resources =
      join_by "+" (filterb names_servers (x ∷ xs) ++ filterb (λ c. not (names_servers c)) (x ∷ xs))
      <> ",walltime="
      <> d.walltime;
  command = "sleep 31536000";
  queue = d.queue;
  project = given d.project;
  reservation = given d.reservation_date;
})

get-job_specs :
    (d : Demand) (all_types : List String) (criteria : Criteria) (site : String)
    → get site (job_specs d all_types criteria)
      ≡ elim (get site criteria) [ none ↦ none | some l ↦ some (job_spec d all_types l) ]
unfolding job_specs get
get-job_specs d all_types [] site = refl
get-job_specs d all_types ((s, l) ∷ criteria) site = elim (Bool-cases (s == site)) [
  | inl h ↦ rw h refl
  | inr h ↦ rw h (get-job_specs d all_types criteria site)
]

asked-grown : (xs ys : List String) → grown (grown none xs) ys ≡ grown none (xs ++ ys)
asked-grown [] ys = refl
asked-grown (x ∷ xs) ys = refl

get-build_reservation_criteria :
    (str : ℕ → String) (machines : List GroupConfiguration) (networks : List NetworkConfiguration)
    (site : String)
    → get site (build_reservation_criteria str machines networks)
      ≡ grown none (asked str machines networks site)
unfolding build_reservation_criteria get
get-build_reservation_criteria str machines networks site =
    let groups = map (group_oar str) machines in
    let nets = map (λ (n : NetworkConfiguration). (n.site, network_criterion n.type)) networks in
    get-append_criteria site nets (append_criteria groups [])
    ∙ rw (get-append_criteria site groups [])
        (asked-grown (asked_of site groups) (asked_of site nets))

job_spec-requested :
    (d : Demand) (all_types : List String) (x : String) (xs : List String)
    → some (job_spec d all_types (x ∷ xs)) ≡ requested d all_types (x ∷ xs)
unfolding job_spec in_order le
job_spec-requested d all_types x xs =
    ap
      (λ l. some (record (job_spec d all_types (x ∷ xs)) {
        resources = join_by "+" l <> ",walltime=" <> d.walltime;
      }))
      (sorted-filterb names_servers (x ∷ xs))

build_reservation_criteria-IsMapping :
    (str : ℕ → String) (machines : List GroupConfiguration) (networks : List NetworkConfiguration)
    → IsMapping (build_reservation_criteria str machines networks)
unfolding build_reservation_criteria
build_reservation_criteria-IsMapping str machines networks =
    append_criteria-IsMapping (map (λ n. (n.site, network_criterion n.type)) networks)
      (append_criteria (map (group_oar str) machines) [])
      (append_criteria-IsMapping (map (group_oar str) machines) [] tt)

has_key-job_specs :
    (d : Demand) (all_types : List String) (criteria : Criteria) (site : String)
    → has_key site (job_specs d all_types criteria) ≡ has_key site criteria
unfolding job_specs
has_key-job_specs d all_types [] site = refl
has_key-job_specs d all_types (e ∷ criteria) site =
    ap (λ b. e.0 == site || b) (has_key-job_specs d all_types criteria site)

job_specs-IsMapping :
    (d : Demand) (all_types : List String) (criteria : Criteria)
    → IsMapping criteria
    → IsMapping (job_specs d all_types criteria)
unfolding job_specs
job_specs-IsMapping d all_types [] m = tt
job_specs-IsMapping d all_types (e ∷ criteria) m =
    (has_key-job_specs d all_types criteria e.0 ∙ m.0, job_specs-IsMapping d all_types criteria m.1)

-- Each site stands at most once among the jobs that are submitted, and only if something is asked of
-- it: by one job for all that the groups and then the networks ask, with what names servers in front
-- and both in their order.
pub job_specs-requested :
    (str : ℕ → String) (d : Demand) (all_types : List String) (machines : List GroupConfiguration)
    (networks : List NetworkConfiguration)
    → IsMapping (job_specs d all_types (build_reservation_criteria str machines networks))
      × ((site : String)
          → get site (job_specs d all_types (build_reservation_criteria str machines networks))
            ≡ requested d all_types (asked str machines networks site))
job_specs-requested str d all_types machines networks = (
  job_specs-IsMapping d all_types (build_reservation_criteria str machines networks)
      (build_reservation_criteria-IsMapping str machines networks),
  λ site.
      get-job_specs d all_types (build_reservation_criteria str machines networks) site
      ∙ rw (get-build_reservation_criteria str machines networks site)
          (elim (asked str machines networks site)
            as (λ l.
              (elim (grown none l) [ none ↦ none | some l ↦ some (job_spec d all_types l) ])
              ≡ requested d all_types l) [
                | [] ↦ refl
                | x ∷ xs ↦ job_spec-requested d all_types x xs
              ]),
)
