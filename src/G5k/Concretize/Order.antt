-- ===== src/G5k/Concretize/Order.antt =====
-- The nodes are dispatched in the same way whatever order they are listed in.
use enoslib.Base.{
  ℕ, suc, zero, ◌≡◌, refl, ap, ◌∙◌, sym, String, true, List, [], ◌∷◌, leb, arith, Bool-cases, inl,
  inr, length,
}
use enoslib.Base.Eq.{String_eq}
use enoslib.Base.Count.{count, SameItems, count-sorted, sorted_unique}
use enoslib.Base.Sort.{sorted, sorted-IsSorted}
use enoslib.Base.Text.{text_le}
use enoslib.Base.Text.Order.{text_le_total, text_le_trans, text_le_antisym}
use enoslib.Collections.ResourcesSet.{contains, remove}
use enoslib.G5k.Configuration.{GroupConfiguration}
use enoslib.G5k.Concretize.{
  ConcreteGroup, Attempt, done, not_enough_nodes, nodes_of, servers_of, raise_for_min, append_group,
  take_servers, concretize_servers, servers_config, pools_cluster, concretize_nodes,
  concretize_clusters,
}
use enoslib.G5k.Concretize.Servers.{count-remove}

contains-count : (s : String) (nodes : List String) → contains nodes s ≡ leb 1 (count s nodes)
unfolding contains
contains-count s [] = refl
contains-count s (n ∷ nodes) = ground (arith, contains-count s nodes)

remove-SameItems :
    (s : String) (xs ys : List String)
    → SameItems xs ys
    → contains xs s ≡ true
    → contains ys s ≡ true
    → SameItems (remove xs s) (remove ys s)
remove-SameItems s xs ys same h k a =
    ground (arith, same a, count-remove a s xs h, count-remove a s ys k)

take_servers-SameItems :
    (left : ℕ) (servers xs ys : List String)
    → SameItems xs ys
    → ((take_servers left servers xs).0 ≡ (take_servers left servers ys).0)
      × SameItems (take_servers left servers xs).1 (take_servers left servers ys).1
unfolding take_servers
take_servers-SameItems left [] xs ys same = (refl, same)
take_servers-SameItems zero (s ∷ servers) xs ys same = (refl, same)
take_servers-SameItems (suc left) (s ∷ servers) xs ys same =
    let both : contains xs s ≡ contains ys s =
      contains-count s xs ∙ ap (leb 1) (same s) ∙ sym (contains-count s ys) in
    elim (Bool-cases (contains ys s)) [
      | inl there ↦
          let (taken, left') =
            take_servers-SameItems left servers (remove xs s) (remove ys s)
              (remove-SameItems s xs ys same (both ∙ there) there) in
          rw (both, there) (ap (λ l. s ∷ l) taken, left')
      | inr gone ↦ rw (both, gone) (take_servers-SameItems (suc left) servers xs ys same)
    ]

-- The same groups, or the same error; what is left has the same items.
abbrev Agree :
    Attempt (List ConcreteGroup × List String) → Attempt (List ConcreteGroup × List String) → Type 0
Agree (done (cs, xs)) (done (ds, ys)) = (cs ≡ ds) × SameItems xs ys
Agree (not_enough_nodes m xs) (not_enough_nodes n ys) = (m ≡ n) × (xs ≡ ys)
Agree (done _) (not_enough_nodes _ _) = ⊥
Agree (not_enough_nodes _ _) (done _) = ⊥

append_group-Agree :
    (c : ConcreteGroup) (out out' : Attempt (List ConcreteGroup × List String))
    → Agree out out'
    → Agree (append_group c out) (append_group c out')
unfolding append_group
append_group-Agree c (done (cs, xs)) (done (ds, ys)) (same, left) = (ap (λ l. c ∷ l) same, left)
append_group-Agree c (not_enough_nodes m xs) (not_enough_nodes n ys) h = h
append_group-Agree c (done _) (not_enough_nodes _ _) h = h
append_group-Agree c (not_enough_nodes _ _) (done _) h = h

raise_for_min-Agree :
    (c : ConcreteGroup) (out out' : Attempt (List ConcreteGroup × List String))
    → Agree out out'
    → Agree (raise_for_min c (append_group c out)) (raise_for_min c (append_group c out'))
unfolding raise_for_min
raise_for_min-Agree c out out' h = elim (Bool-cases (leb c.config.min (length c.oar_nodes))) [
  | inl enough ↦ rw enough (append_group-Agree c out out' h)
  | inr short ↦ rw short (refl, refl)
]

concretize_servers-Agree :
    (gs : List GroupConfiguration) (xs ys : List String)
    → SameItems xs ys
    → Agree (concretize_servers gs xs) (concretize_servers gs ys)
unfolding concretize_servers
concretize_servers-Agree [] xs ys same = (refl, same)
concretize_servers-Agree (g ∷ gs) xs ys same =
    let out = take_servers (nodes_of g.resources) (servers_of g.resources) xs in
    let out' = take_servers (nodes_of g.resources) (servers_of g.resources) ys in
    let (taken, left) =
      take_servers-SameItems (nodes_of g.resources) (servers_of g.resources) xs ys same in
    rw taken (
      raise_for_min-Agree (record { oar_nodes = out'.0; config = g }) (concretize_servers gs out.1)
        (concretize_servers gs out'.1) (concretize_servers-Agree gs out.1 out'.1 left))

sorted-SameItems : (xs ys : List String) → SameItems xs ys → sorted text_le xs ≡ sorted text_le ys
sorted-SameItems xs ys same =
    sorted_unique text_le text_le_antisym (sorted text_le xs) (sorted text_le ys)
      (sorted-IsSorted text_le text_le_total text_le_trans xs)
      (sorted-IsSorted text_le text_le_total text_le_trans ys)
      (λ a. count-sorted text_le a xs ∙ same a ∙ sym (count-sorted text_le a ys))

pools_cluster-SameItems :
    (xs ys : List String) → SameItems xs ys → pools_cluster xs ≡ pools_cluster ys
unfolding pools_cluster
pools_cluster-SameItems xs ys same = rw (sorted-SameItems xs ys same) refl

concretize_clusters-Agree :
    (gs : List GroupConfiguration) (out out' : Attempt (List ConcreteGroup × List String))
    → Agree out out'
    → concretize_clusters gs out ≡ concretize_clusters gs out'
unfolding concretize_clusters
concretize_clusters-Agree gs (done (cs, xs)) (done (ds, ys)) (same, left) =
    rw (same, pools_cluster-SameItems xs ys left) refl
concretize_clusters-Agree gs (not_enough_nodes m xs) (not_enough_nodes n ys) (same, found) = cc
concretize_clusters-Agree gs (done _) (not_enough_nodes _ _) h = absurd h
concretize_clusters-Agree gs (not_enough_nodes _ _) (done _) h = absurd h

-- `_concretize_nodes` is deterministic: two lists of the same nodes, in whatever order, give the same
-- groups with the same nodes in the same order, or the same error.
pub concretize_nodes-SameItems :
    (gs : List GroupConfiguration) (nodes nodes' : List String)
    → SameItems nodes nodes'
    → concretize_nodes gs nodes ≡ concretize_nodes gs nodes'
unfolding concretize_nodes
concretize_nodes-SameItems gs nodes nodes' same =
    concretize_clusters-Agree gs _ _
      (concretize_servers-Agree (servers_config gs) nodes nodes' same)
