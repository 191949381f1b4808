-- ===== src/Direct/Session/Watch/Tests.antt =====
-- A watch's theorems on one history (watchConnection of src/direct/session.ts).
use wildbloom.Prelude.{◌≡◌, true, false, List, [], ◌∷◌}
use wildbloom.Direct.Session.Watch
use wildbloom.Direct.Session.Watch.Notes.{Alternates, newest, notes_alternate}

abbrev ups_and_downs : List Watch.Event
ups_and_downs =
    Watch.reports Watch.connected
    ∷ Watch.reports Watch.disconnected
    ∷ Watch.reports Watch.failed
    ∷ Watch.failed_timeout
    ∷ []

notes_alternate_example :
    let w = Watch.run ups_and_downs Watch.fresh in
    Alternates w.notes
    × (w.ever_connected ≡ false → w.notes ≡ [])
    × (w.ever_connected ≡ true → w.down ≡ newest false w.notes)
notes_alternate_example = notes_alternate ups_and_downs

abbrev up : Watch.Watch
up = Watch.run (Watch.reports Watch.connected ∷ []) Watch.fresh
