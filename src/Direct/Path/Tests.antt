-- ===== src/Direct/Path/Tests.antt =====
-- The watch on the path on a concrete run (watchPath of src/direct/pacing.ts): no pair at first, one after a retry.
use wildbloom.Prelude.{◌+◌, ◌≤◌, ◌≡◌, refl, true, List, [], ◌∷◌, none, some, length, arith}
use wildbloom.Direct.Path.{
  PathWatch, fresh, Event, run, step, stop, refreshes, restarts, reading, retry_fires, look_fires,
  look, stops,
}
use wildbloom.Direct.Path.Chains.{reads_of}
use wildbloom.Direct.Path.Readings.{readings_end}
use wildbloom.Direct.Path.Stopped.{stopped_untold}

abbrev asking : List Event
asking =
    refreshes
    ∷ reading 1 none
    ∷ retry_fires 1
    ∷ reading 1 (some true)
    ∷ restarts
    ∷ reading 2 none
    ∷ look_fires
    ∷ []

readings_end_example : reads_of 1 (run 30 2 asking fresh).reads ≤ 1 + 30
readings_end_example = readings_end 30 2 asking 1 (omega arith)

abbrev stopped : PathWatch
stopped = run 30 2 (stops ∷ []) (run 30 2 asking fresh)

-- A reading settles late, the timers fire late, and the caller asks again.
abbrev afterwards : List Event
afterwards = reading 2 (some true) ∷ retry_fires 2 ∷ look_fires ∷ look (some true) ∷ refreshes ∷ []

stopped_untold_example :
    ((run 30 2 afterwards stopped).applied ≡ stopped.applied)
    × (length (run 30 2 afterwards stopped).reads ≡ 1 + length stopped.reads)
unfolding run step stop
stopped_untold_example = stopped_untold 30 2 afterwards stopped refl
