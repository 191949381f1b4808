-- ===== src/Direct/Path/Stopped.antt =====
-- A watch of the path that is stopped (watchPath of src/direct/pacing.ts).
use wildbloom.Prelude.{
  ℕ, ◌+◌, ◌≡◌, refl, ◌∙◌, true, false, List, [], ◌∷◌, none, some, length, arith,
}
use wildbloom.Direct.Path.{
  Place, first, waiting, again, done, Chain, PathWatch, tell, refresh, fire_chain, has_begun,
  begin_reads, reading_settles, after_restart, settle_fires, look_settles, stop, Event, refreshes,
  restarts, reading, retry_fires, look_fires, look, stops, step, run,
}

-- The readings that the events themselves ask for: those of the calls of `refresh`.
abbrev pub asked : List Event → ℕ
asked [] = 0
asked (refreshes ∷ es) = 1 + asked es
asked (restarts ∷ es) = 1 + asked es
asked (_ ∷ es) = asked es

-- A timer that fires in a watch that is stopped begins nothing.
begin_reads-stopped :
    (generation most mine : ℕ) (cs : List Chain) (reads : List ℕ)
    → begin_reads mine (fire_chain true generation most) cs reads ≡ reads
begin_reads-stopped generation most mine [] reads = refl
begin_reads-stopped generation most mine (c ∷ cs) reads =
    let r = begin_reads-stopped generation most mine cs reads in
    let n = unbegun c.mine c.attempts c.place in ground arith
  where
    unbegun :
        (number attempts : ℕ) (place : Place)
        → let c : Chain = record { mine = number; attempts = attempts; place = place } in
          has_begun c (fire_chain true generation most c) ≡ false
    unbegun number attempts first = ground arith
    unbegun number attempts waiting = ground arith
    unbegun number attempts again = ground arith
    unbegun number attempts done = ground arith

-- What no event changes of a watch that is stopped.
abbrev Quiet : PathWatch → ℕ → PathWatch → Type 0
Quiet p n q = (q.stopped ≡ true) × (q.applied ≡ p.applied) × (length q.reads ≡ n + length p.reads)

step_stopped :
    (most delays : ℕ) (e : Event) (p : PathWatch)
    → p.stopped ≡ true
    → Quiet p (asked (e ∷ [])) (step most delays e p)
unfolding step refresh after_restart reading_settles tell settle_fires look_settles stop
step_stopped most delays refreshes p h = ground arith
step_stopped most delays restarts p h = ground arith
step_stopped most delays (reading mine none) p h = ground arith
step_stopped most delays (reading mine (some r)) p h = ground arith
step_stopped most delays (retry_fires mine) p h =
    let k : begin_reads mine (fire_chain p.stopped p.generation most) p.chains p.reads ≡ p.reads =
      rw h (begin_reads-stopped p.generation most mine p.chains p.reads) in
    (h, refl, rw k (omega arith))
step_stopped most delays look_fires p h = ground arith
step_stopped most delays (look none) p h = ground arith
step_stopped most delays (look (some r)) p h = ground arith
step_stopped most delays stops p h = ground arith

asked_first : (e : Event) (es : List Event) → asked (e ∷ es) ≡ asked (e ∷ []) + asked es
asked_first refreshes es = omega arith
asked_first restarts es = omega arith
asked_first (reading mine result) es = omega arith
asked_first (retry_fires mine) es = omega arith
asked_first look_fires es = omega arith
asked_first (look result) es = omega arith
asked_first stops es = omega arith

-- Once the watch is stopped, whatever settles or fires later, the pacing is told nothing more of the path, and no
-- further reading is begun, except for one by each call that still comes for `refresh` or `afterRestart` itself.
pub stopped_untold :
    (most delays : ℕ) (es : List Event) (p : PathWatch)
    → p.stopped ≡ true
    → ((run most delays es p).applied ≡ p.applied)
      × (length (run most delays es p).reads ≡ asked es + length p.reads)
unfolding run
stopped_untold most delays [] p h = (refl, omega arith)
stopped_untold most delays (e ∷ es) p h =
    let (stopped, applied, reads) = step_stopped most delays e p h in
    let (a, l) = stopped_untold most delays es (step most delays e p) stopped in
    (a ∙ applied, omega (arith, l, reads, asked_first e es))
