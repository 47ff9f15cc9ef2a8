-- ===== src/Examples/Timelines.antt =====
-- Plannings and registries at concrete inputs.
use enoslib.Base.{String, ℕ, ◌≡◌, all, List, [], ◌∷◌}
use enoslib.Base.Eq.{ℕ_eq}
use enoslib.Planning.{Event, start, kill, check}
use enoslib.Planning.Timeline.{is_ok, alternates}
use enoslib.Planning.Check.{IsTimeline, check-alternates}
use enoslib.Registry.{ProcessGroup, alive}

abbrev stop_web : Event ℕ
stop_web = record { kind = kill; date = 90; host = 1; name = "web"; cmd = "" }

abbrev start_web : Event ℕ
start_web = record { kind = start; date = 30; host = 1; name = "web"; cmd = "serve" }

abbrev planned : List (Event ℕ)
planned = stop_web ∷ start_web ∷ []

check-alternates_example :
    (timeline : String → ℕ → List (Event ℕ)) × ((name : String) (host : ℕ)
      → IsTimeline planned name host (timeline name host))
    × (is_ok (check planned) ≡ all (λ e. alternates (timeline e.name e.host)) planned)
check-alternates_example = check-alternates planned

abbrev web : ProcessGroup ℕ
web = record { group = "web"; host = 1; state = alive }
