-- ===== src/G5k/Configuration/Finalize/Complete.antt =====
-- What `finalize` completes.
use enoslib.Base.{
  String, ◌≡◌, refl, ap, ◌∙◌, Bool, true, false, ◌&&◌, ◌||◌, not, Option, List, [], ◌∷◌, ◌++◌,
  arith, any, Bool-cases, inl, inr,
}
use enoslib.Base.Eq.{String_eq, ◌==◌}
use enoslib.Collections.ResourcesSet.{contains}
use enoslib.G5k.Configuration.Finalize.{
  Networks, Configuration, Final, final, err, value_error, validation_error, set_defaults,
  is_origin, is_kavlan, is_set, with_origin, with_deploy, with_env, finalize,
}
use enoslib.G5k.Configuration.Finalize.Defaults.{AreDefaulted, set_defaults-AreDefaulted}

-- What a finalized configuration has, and when there is none.
pub record IsComplete (c c' : Configuration) : Type 0 where
  pub machines : AreDefaulted c.machines c'.machines c'.networks
  pub origin : any is_origin c'.job_type ≡ true
  pub deploys : contains c'.job_type "deploy" ≡ is_set c'.env_name
  pub kavlan_deploys : any is_kavlan c'.networks ≡ true → contains c'.job_type "deploy" ≡ true

-- The outcomes: a configuration that is complete, the deployment that lacks an environment, and the
-- configuration that the schema refuses.
abbrev pub IsOutcomeOf : (Configuration → Bool) → Configuration → Final → Type 0
IsOutcomeOf valid c (final c') = IsComplete c c' × (valid c' ≡ true)
IsOutcomeOf valid c (err value_error) =
    (contains c.job_type "deploy" ≡ true)
    × (is_set c.env_name ≡ false)
    × (any is_kavlan (set_defaults c.networks c.machines).0 ≡ false)
IsOutcomeOf valid c (err validation_error) =
    (c' : Configuration) × IsComplete c c' × (valid c' ≡ false)

any-append :
    {A : Type 0} (p : A → Bool) (xs ys : List A) → any p (xs ++ ys) ≡ (any p xs || any p ys)
any-append p [] ys = refl
any-append p (x ∷ xs) ys = ground (arith, any-append p xs ys)

contains-append :
    (xs : List String) (x y : String) → contains (xs ++ x ∷ []) y ≡ (contains xs y || x == y)
unfolding contains
contains-append [] x y = ground arith
contains-append (z ∷ xs) x y = ground (arith, contains-append xs x y)

with_origin-origin : (job_type : List String) → any is_origin (with_origin job_type) ≡ true
unfolding with_origin
with_origin-origin job_type =
    ground (arith, any-append is_origin job_type ("origin=enoslib_g5k" ∷ []))

with_origin-contains :
    (job_type : List String) → contains (with_origin job_type) "deploy" ≡ contains job_type "deploy"
unfolding with_origin
with_origin-contains job_type =
    ground (arith, contains-append job_type "origin=enoslib_g5k" "deploy")

with_deploy-origin :
    (needed : Bool) (job_type : List String)
    → any is_origin job_type ≡ true
    → any is_origin (with_deploy needed job_type) ≡ true
unfolding with_deploy
with_deploy-origin needed job_type h =
    ground (arith, h, any-append is_origin job_type ("deploy" ∷ []))

with_deploy-contains :
    (needed : Bool) (job_type : List String)
    → contains (with_deploy needed job_type) "deploy" ≡ (contains job_type "deploy" || needed)
unfolding with_deploy
with_deploy-contains needed job_type = ground (arith, contains-append job_type "deploy" "deploy")

with_env-is_set :
    (has_kavlan : Bool) (env_name : Option String)
    → is_set (with_env has_kavlan env_name) ≡ (is_set env_name || has_kavlan)
unfolding with_env
with_env-is_set has_kavlan env_name = ground arith

module _ (valid : Configuration → Bool) (c : Configuration) where
  -- What the loop over the machines leaves, and the configuration that is validated.
  abbrev completed_networks : Networks
  completed_networks = (set_defaults c.networks c.machines).0

  abbrev has_kavlan : Bool
  has_kavlan = any is_kavlan completed_networks

  abbrev env : Option String
  env = with_env has_kavlan c.env_name

  abbrev jobs : List String
  jobs = with_deploy has_kavlan (with_origin c.job_type)

  abbrev candidate : Configuration
  candidate = record {
    env_name = env;
    job_type = with_deploy (is_set env) jobs;
    machines = (set_defaults c.networks c.machines).1;
    networks = completed_networks;
  }

  jobs-contains : contains jobs "deploy" ≡ (contains c.job_type "deploy" || has_kavlan)
  jobs-contains =
      with_deploy-contains has_kavlan (with_origin c.job_type)
      ∙ ap (λ b. b || has_kavlan) (with_origin-contains c.job_type)

  candidate-IsComplete :
      (contains jobs "deploy" && not (is_set env)) ≡ false → IsComplete c candidate
  candidate-IsComplete h = record {
    machines = set_defaults-AreDefaulted c.networks c.machines;
    origin =
        with_deploy-origin (is_set env) jobs
          (with_deploy-origin has_kavlan (with_origin c.job_type) (with_origin-origin c.job_type));
    deploys = ground (arith, h, with_deploy-contains (is_set env) jobs);
    kavlan_deploys = λ k. ground (arith, k, jobs-contains, with_deploy-contains (is_set env) jobs);
  }

  -- `finalize` ends in one of three ways. A configuration: each machine with a primary network kept
  -- it and each other machine has a production network of its site, one that is listed; the job
  -- types name an origin; they have "deploy" exactly if an environment is set, and have it if a
  -- network is a kavlan. A ValueError: "deploy" was asked for, no environment was set and no
  -- network is a kavlan. A refusal of the schema: such a complete configuration is invalid.
  pub finalize-IsOutcomeOf : IsOutcomeOf valid c (finalize valid c)
  unfolding finalize
  finalize-IsOutcomeOf = elim (Bool-cases (contains jobs "deploy" && not (is_set env))) [
    | inl h ↦ rw h (
      ground (arith, h, jobs-contains),
      ground (arith, h, with_env-is_set has_kavlan c.env_name),
      ground (arith, h, with_env-is_set has_kavlan c.env_name),
    )
    | inr h ↦ rw h (elim (Bool-cases (valid candidate)) [
      | inl v ↦ rw v (candidate-IsComplete h, v)
      | inr v ↦ rw v (candidate, candidate-IsComplete h, v)
    ])
  ]
