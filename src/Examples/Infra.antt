-- ===== src/Examples/Infra.antt =====
-- Walltimes and merged configurations at concrete inputs.
use enoslib.Base.{ℕ, ◌≡◌, refl, some}
use enoslib.Base.Int.{pos, negsuc, ◌+ℤ◌}
use enoslib.Walltime.{Clock, seconds, g5k_offset_walltime}
use enoslib.Walltime.Offset.{OffsetsTo, g5k_offset_walltime-OffsetsTo}
use enoslib.MergeDict.{Items, other, dict, end, item, merge_dict}

abbrev two_hours : Clock
two_hours = record { hour = 2; minute = 30; second = 15 }

g5k_offset_walltime-OffsetsTo_example :
    OffsetsTo (pos (seconds two_hours) +ℤ negsuc 899) (g5k_offset_walltime two_hours (negsuc 899))
g5k_offset_walltime-OffsetsTo_example = g5k_offset_walltime-OffsetsTo two_hours (negsuc 899)

abbrev defaults : Items ℕ
defaults =
    item "resources" (dict (item "machines" (other 1) (item "networks" (other 2) end)))
      (item "queue" (other 3) end)

abbrev changes : Items ℕ
changes = item "resources" (dict (item "machines" (other 5) end)) end

abbrev merged : Items ℕ
merged =
    item "resources" (dict (item "machines" (other 5) (item "networks" (other 2) end)))
      (item "queue" (other 3) end)

merges : merge_dict defaults changes ≡ some merged
unfolding merge_dict
merges = refl
