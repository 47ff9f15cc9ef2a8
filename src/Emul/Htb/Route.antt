-- ===== src/Emul/Htb/Route.antt =====
-- Which class the packets to a target go through.
use enoslib.Base.{
  ℕ, ◌+◌, ◌<◌, ◌≡◌, String, Bool, true, false, ◌&&◌, Option, none, some, List, [], ◌∷◌,
  if◌then◌else◌, arith, Bool-cases, inl, inr,
}
use enoslib.Base.Eq.{ℕ_eq, String_eq, ◌==◌}
use enoslib.Emul.Constraints.Laws.{find}
use enoslib.Emul.Htb.{
  HtbConstraint, Command, class_add, netem_add, filter_add, equal, netem_loss, source_commands,
}

-- The class of the first filter on the device that matches the target.
abbrev pub flow : String → String → List Command → Option ℕ
flow device target [] = none
flow device target (filter_add d ipv4 t classid ∷ cmds) =
    if d == device && t == target then some classid else flow device target cmds
flow device target (_ ∷ cmds) = flow device target cmds

-- The rate of a class of the device, and the delay and loss of the qdisc below it.
abbrev pub class_rate : String → ℕ → List Command → Option String
class_rate device classid [] = none
class_rate device classid (class_add d n rate ∷ cmds) =
    if d == device && n == classid then some rate else class_rate device classid cmds
class_rate device classid (_ ∷ cmds) = class_rate device classid cmds

abbrev pub class_netem : String → ℕ → List Command → Option (String × Option String)
class_netem device classid [] = none
class_netem device classid (netem_add d n handle delay loss ∷ cmds) =
    if d == device && n == classid then some (delay, loss) else class_netem device classid cmds
class_netem device classid (_ ∷ cmds) = class_netem device classid cmds

module _ (is_ipv4 : String → Bool) where
  -- The packets of a constraint go through a class with its rate, delay and loss.
  pub record IsRouted (cmds : List Command) (c : HtbConstraint) : Type 0 where
    pub classid : ℕ
    pub flows : flow c.device c.target cmds ≡ some classid
    pub rated : class_rate c.device classid cmds ≡ some c.rate
    pub delayed : class_netem c.device classid cmds ≡ some (c.delay, netem_loss c.loss)

  Later : ℕ → List Command → HtbConstraint → Type 0
  Later idx cmds c = (r : IsRouted cmds c) × (idx < r.classid)

  routed_from :
      (idx : ℕ) (cs : List HtbConstraint) (c : HtbConstraint)
      → find equal c cs ≡ some c
      → Later idx (source_commands is_ipv4 idx cs) c
  unfolding source_commands Later
  routed_from idx [] c h = cc
  routed_from idx (x ∷ cs) c h = elim (Bool-cases (equal c x)) [
    | inl same ↦ here (rw same at h) same
    | inr other ↦ later (routed_from (idx + 1) cs c (rw other at h)) other
  ]
    where
      here :
          ◌≡◌ {A = Option HtbConstraint} (some x) (some c)
          → equal c x ≡ true
          → Later idx (source_commands is_ipv4 idx (x ∷ cs)) c
      here e same = (
        record {
          classid = idx + 1;
          flows =
              ground
                (arith, String_eq.eqb_iff x.device c.device, String_eq.eqb_iff x.target c.target);
          rated = ground (arith, String_eq.eqb_iff x.device c.device);
          delayed = ground (arith, String_eq.eqb_iff x.device c.device);
        },
        omega arith,
      )

      later :
          Later (idx + 1) (source_commands is_ipv4 (idx + 1) cs) c
          → equal c x ≡ false
          → Later idx (source_commands is_ipv4 idx (x ∷ cs)) c
      later (r, lt) other = (
        record {
          classid = r.classid;
          flows = ground (
            arith,
            r.flows,
            String_eq.eqb_iff x.device c.device,
            String_eq.eqb_iff x.target c.target,
            String_eq.eqb_iff c.device x.device,
            String_eq.eqb_iff c.target x.target,
          );
          rated = ground (arith, r.rated);
          delayed = ground (arith, r.delayed);
        },
        omega arith,
      )

  pub source_commands-IsRouted :
      (cs : List HtbConstraint) (c : HtbConstraint)
      → find equal c cs ≡ some c
      → IsRouted (source_commands is_ipv4 0 cs) c
  unfolding Later
  source_commands-IsRouted cs c h = (routed_from 0 cs c h).0
