-- ===== src/Examples/Redeploy.antt =====
-- Deployments with retries at a concrete input.
use enoslib.Base.{
  ℕ, suc, ◌+◌, ◌≤◌, ◌≡◌, refl, ap, String, true, false, some, List, [], ◌∷◌, map, arith,
  if◌then◌else◌,
}
use enoslib.Base.Eq.{String_eq, ℕ_eq, ◌==◌}
use enoslib.Base.Count.{count}
use enoslib.Api.Results.{Event, failed, passed}
use enoslib.G5k.Networks.{G5kHost, G5kNetwork, vlan_network}
use enoslib.G5k.Names.{translate, site_of}
use enoslib.Base.Text.{split}
use enoslib.G5k.Deploy.{Status, error, Config, has_ended}
use enoslib.G5k.Retries.{
  Play, check_name, check_play, Partition, fqdns, has_hosts, deploy_attempt, deploy_with_retries,
}
use enoslib.G5k.Retries.Check.{Splits, AnswersOnce, answered}
use enoslib.G5k.Retries.Attempt.{AreReady, Ends}
use enoslib.G5k.Retries.Loop.{AreWell, deploy_with_retries-IsLast}

abbrev vlan : G5kNetwork
vlan = vlan_network ("lan" ∷ []) "net" "rennes" "4"

abbrev node : String → G5kHost
node fqdn = record { fqdn = fqdn; roles = []; primary_network = vlan; secondary_networks = [] }

abbrev one : G5kHost
one = node "paravance-1.rennes.grid5000.fr"

abbrev two : G5kHost
two = node "paravance-2.rennes.grid5000.fr"

-- The first node is deployed already, and the API deploys none.
abbrev ends_on : String → Event ℕ
ends_on address = record {
  ended = if address == "paravance-1-kavlan-4.rennes.grid5000.fr" then passed else failed false;
  host = address;
  task = check_name;
  result = [];
}

abbrev check : ℕ → Play → ℕ × List (Event ℕ)
check w play = (suc w, map ends_on play.hosts)

answered-ends_on : (addresses : List String) → answered (map ends_on addresses) ≡ addresses
answered-ends_on [] = refl
answered-ends_on (a ∷ addresses) = ap (λ l. a ∷ l) (answered-ends_on addresses)

check-AnswersOnce : AnswersOnce check
unfolding check_play
check-AnswersOnce w addresses a = ap (count a) (answered-ends_on addresses)

abbrev down : ℕ → ℕ → ℕ → Status
down attempt t uid = error

down-Ends : (i : ℕ) → Ends (down i) (λ t (c : Config ℕ). 0) 0
unfolding has_ended
down-Ends i = (λ c t. tt, λ uid. refl)

nodes-AreReady : AreReady (one ∷ two ∷ [])
unfolding fqdns site_of translate split
nodes-AreReady = (
  λ a. ground (
    arith,
    String_eq.eqb_iff "paravance-1.rennes.grid5000.fr" a,
    String_eq.eqb_iff "paravance-2.rennes.grid5000.fr" a,
    String_eq.eqb_iff "paravance-1.rennes.grid5000.fr" "paravance-2.rennes.grid5000.fr",
  ),
  (("rennes", refl), (("rennes", refl), tt)),
  ((refl, (refl, tt)), ((refl, (refl, tt)), tt)),
)

deploy_with_retries-IsLast_example :
    (w1 : ℕ) × (first : Partition) × (w' : ℕ) × (sides : Partition) × (deploy_attempt check 0
        (down 0)
        (λ t (c : Config ℕ). 0)
        1
        false
        0
        (one ∷ two ∷ [])
      ≡ some (w1, first))
    × Splits (one ∷ two ∷ []) first
    × (deploy_with_retries check 0 down (λ i t (c : Config ℕ). 0) 1 false 0 (one ∷ two ∷ [])
        ≡ some (w', sides))
    × (has_hosts first.1 ≡ false → sides ≡ first)
    × (has_hosts first.1 ≡ true
        → (a : String)
        → (count a (fqdns sides.0) + count a (fqdns sides.1) ≤ count a (fqdns first.1))
          × (1 ≤ count a (fqdns first.0) → count a (fqdns sides.0) + count a (fqdns sides.1) ≡ 0))
    × AreWell check 0 down (λ i t (c : Config ℕ). 0) 0 sides.0
deploy_with_retries-IsLast_example =
    deploy_with_retries-IsLast check 0 down (λ i t (c : Config ℕ). 0) 0 false 0 one (two ∷ [])
      check-AnswersOnce down-Ends nodes-AreReady
