-- ===== src/Direct/Session/Watch/Notes.antt =====
-- What a watch tells of a connection, and when it gives up (watchConnection of src/direct/session.ts).
use wildbloom.Prelude.{
  ℕ, ◌≡◌, refl, ◌∙◌, Bool, true, false, not, ◌&&◌, List, [], ◌∷◌, All, arith, suc,
}
use wildbloom.Direct.Session.Failures.{DirectFailure, connect}
use wildbloom.Direct.Session.Watch.{
  Watch, fresh, connected, disconnected, is_running, Event, reports, connect_timeout,
  failed_timeout, gives_up, stops, step, run, evaluate, give_up, on_connected, on_down,
  connect_fires, failed_fires, stop,
}

-- Each note differs from the one before it.
abbrev pub Alternates : List Bool → Type 0
Alternates [] = Unit
Alternates (a ∷ []) = Unit
Alternates (a ∷ b ∷ rest) = (a ≡ not b) × Alternates (b ∷ rest)

-- The newest note, and what it would be if there is none.
abbrev pub newest : Bool → List Bool → Bool
newest otherwise [] = otherwise
newest otherwise (a ∷ rest) = a

record Fits (w : Watch) : Type 0 where
  alternates : Alternates w.notes
  says_down : w.ever_connected ≡ true → w.down ≡ newest false w.notes
  none_yet : w.ever_connected ≡ false → w.notes ≡ []

Alternates-cons :
    (a : Bool) (notes : List Bool)
    → newest (not a) notes ≡ not a
    → Alternates notes
    → Alternates (a ∷ notes)
Alternates-cons a [] p h = tt
Alternates-cons a (b ∷ rest) p h = (ground arith, h)

newest-true : (notes : List Bool) → newest false notes ≡ true → newest true notes ≡ true
newest-true [] p = refl
newest-true (b ∷ rest) p = p

on_connected-Fits : (w : Watch) → Fits w → Fits (on_connected w)
unfolding on_connected
on_connected-Fits w f = ground (arith, Alternates-cons false w.notes, newest-true w.notes)

on_down-Fits : (is_failed : Bool) (w : Watch) → Fits w → Fits (on_down is_failed w)
unfolding on_down
on_down-Fits is_failed w f = ground (arith, Alternates-cons true w.notes)

step-Fits : (e : Event) (w : Watch) → Fits w → Fits (step e w)
unfolding step give_up evaluate connect_fires failed_fires stop
step-Fits (reports state) w f =
    ground (arith, on_connected-Fits w f, on_down-Fits true w f, on_down-Fits false w f)
step-Fits connect_timeout w f = ground arith
step-Fits failed_timeout w f = ground arith
step-Fits gives_up w f = ground arith
step-Fits stops w f = ground arith

run-Fits : (es : List Event) (w : Watch) → Fits w → Fits (run es w)
unfolding run
run-Fits [] w f = f
run-Fits (e ∷ es) w f = run-Fits es (step e w) (step-Fits e w f)

-- Whatever the connection does, no two notes that follow each other are the same; before the
-- connection has been up there are none, and from then on the last one says whether it is down.
pub notes_alternate :
    (es : List Event)
    → let w = run es fresh in
      Alternates w.notes
      × (w.ever_connected ≡ false → w.notes ≡ [])
      × (w.ever_connected ≡ true → w.down ≡ newest false w.notes)
notes_alternate es =
    let f = run-Fits es fresh (ground arith) in (f.alternates, f.none_yet, f.says_down)

-- Between two events of a connection that is up or came back, or only lost its path for a while.
abbrev pub is_mild : Event → Bool
is_mild (reports connected) = true
is_mild (reports disconnected) = true
is_mild connect_timeout = true
is_mild failed_timeout = true
is_mild _ = false

-- No timer runs.
abbrev pub is_calm : Watch → Bool
is_calm w = not (is_running w.connect_timer) && not (is_running w.failed_timer)

step-calm :
    (e : Event) (w : Watch)
    → is_mild e ≡ true
    → is_calm w ≡ true
    → (is_calm (step e w) ≡ true) × ((step e w).gave_up ≡ w.gave_up)
unfolding step give_up evaluate on_connected on_down connect_fires failed_fires
step-calm e w m p = ground arith

-- A connection that has come up is never given up for being disconnected, however long: until it fails, or
-- the session gives it up, no timer that fires ends it.
pub disconnected_harmless :
    (es : List Event) (w : Watch)
    → is_calm w ≡ true
    → All (λ e. is_mild e ≡ true) es
    → (run es w).gave_up ≡ w.gave_up
unfolding run
disconnected_harmless [] w p h = refl
disconnected_harmless (e ∷ es) w p (m, h) =
    let q = step-calm e w m p in disconnected_harmless es (step e w) q.0 h ∙ q.1

-- How often the watch gave up because the two ends did not connect.
abbrev pub connects : List DirectFailure → ℕ
connects [] = 0
connects (connect ∷ kinds) = suc (connects kinds)
connects (_ ∷ kinds) = connects kinds

step-connects :
    (e : Event) (w : Watch)
    → w.ever_connected ≡ true
    → ((step e w).ever_connected ≡ true) × (connects (step e w).gave_up ≡ connects w.gave_up)
unfolding step give_up evaluate on_connected on_down connect_fires failed_fires stop
step-connects e w p = ground arith

-- Once the connection has been up, the watch never again gives up with the failure that the two ends did not
-- connect.
pub gives_up_lost :
    (es : List Event) (w : Watch)
    → w.ever_connected ≡ true
    → connects (run es w).gave_up ≡ connects w.gave_up
unfolding run
gives_up_lost [] w p = refl
gives_up_lost (e ∷ es) w p = let q = step-connects e w p in gives_up_lost es (step e w) q.0 ∙ q.1
