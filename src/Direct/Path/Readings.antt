-- ===== src/Direct/Path/Readings.antt =====
-- How often the selected path is read (watchPath of src/direct/pacing.ts).
use wildbloom.Prelude.{
  ℕ, ◌+◌, ◌-◌, ◌≤◌, ◌<◌, ◌≡◌, refl, Bool, List, [], ◌∷◌, Option, none, some, map, ◌==◌, Bool-cases,
  inl, inr, arith,
}
use wildbloom.Direct.Path.{
  first, Chain, PathWatch, fresh, clear_chain, tell, refresh, settle_chain, fire_chain, on_chain,
  begin_reads, has_reading, reading_settles, after_restart, settle_fires, look_settles, stop, Event,
  refreshes, restarts, reading, retry_fires, look_fires, look, stops, step, run,
}
use wildbloom.Direct.Path.Chains.{
  reads_of, chains_of, counted, Capped, on_chain-Capped, chains_of-on_chain, reads_of-begin_reads,
  map_clear-Capped, chains_of-map_clear, counted-map_clear, counted-Capped, fire_chain-Counts,
  settle_chain-Counts, counted-settle_chain,
}

-- What holds between any two events of the calls and of their readings.
record Holds (most generation : ℕ) (chains : List Chain) (reads : List ℕ) : Type 0 where
  capped : Capped most chains
  single : (m : ℕ) → chains_of m chains ≤ 1
  later : (m : ℕ) → generation < m → chains_of m chains ≡ 0
  read : (m : ℕ) → 1 ≤ m → reads_of m reads ≤ counted m chains

refresh-Holds :
    (most g : ℕ) (cs : List Chain) (reads : List ℕ)
    → Holds most g cs reads
    → Holds most
        (g + 1)
        (record { mine = g + 1; attempts = 0; place = first } ∷ map clear_chain cs)
        ((g + 1) ∷ reads)
refresh-Holds most g cs reads h = record {
  capped = (omega arith, map_clear-Capped most cs h.capped);
  single = λ m.
      let a = h.single m in let b = h.later m in let c = chains_of-map_clear m cs in ground arith;
  later = λ m q. let b = h.later m in let c = chains_of-map_clear m cs in ground arith;
  read = λ m q. let b = h.read m q in let c = counted-map_clear m cs in ground arith;
}

clear-Holds :
    (most g : ℕ) (cs : List Chain) (reads : List ℕ)
    → Holds most g cs reads
    → Holds most g (map clear_chain cs) reads
clear-Holds most g cs reads h = record {
  capped = map_clear-Capped most cs h.capped;
  single = λ m. let a = h.single m in let c = chains_of-map_clear m cs in omega arith;
  later = λ m q. let b = h.later m q in let c = chains_of-map_clear m cs in omega arith;
  read = λ m q. let b = h.read m q in let c = counted-map_clear m cs in omega arith;
}

settled-Holds :
    (most g mine : ℕ) (result : Option Bool) (cs : List Chain) (reads : List ℕ)
    → Holds most g cs reads
    → Holds most g (on_chain mine (settle_chain result) cs) reads
settled-Holds most g mine result cs reads h =
    let k = settle_chain-Counts most result in
    record {
      capped = on_chain-Capped most mine (settle_chain result) cs k h.capped;
      single = λ m.
          let a = h.single m in
          let c = chains_of-on_chain most m mine (settle_chain result) cs k in omega arith;
      later = λ m q.
          let b = h.later m q in
          let c = chains_of-on_chain most m mine (settle_chain result) cs k in omega arith;
      read =
          λ m q. let b = h.read m q in let c = counted-settle_chain m mine result cs in omega arith;
    }

fired-Holds :
    (most g mine : ℕ) (stopped : Bool) (cs : List Chain) (reads : List ℕ)
    → Holds most g cs reads
    → let change = fire_chain stopped g most in
      Holds most g (on_chain mine change cs) (begin_reads mine change cs reads)
fired-Holds most g mine stopped cs reads h =
    let change = fire_chain stopped g most in
    let k = fire_chain-Counts stopped g most in
    record {
      capped = on_chain-Capped most mine change cs k h.capped;
      single = λ m.
          let a = h.single m in let c = chains_of-on_chain most m mine change cs k in omega arith;
      later = λ m q.
          let b = h.later m q in let c = chains_of-on_chain most m mine change cs k in omega arith;
      read = λ m q.
          let b = h.read m q in
          let c = reads_of-begin_reads most m mine change cs reads k in omega arith;
    }

looked-Holds :
    (most g : ℕ) (cs : List Chain) (reads : List ℕ)
    → Holds most g cs reads
    → Holds most g cs (0 ∷ reads)
looked-Holds most g cs reads h = record {
  capped = h.capped;
  single = h.single;
  later = h.later;
  read = λ m q. let b = h.read m q in ground arith;
}

abbrev OfWatch : ℕ → PathWatch → Type 0
OfWatch most p = Holds most p.generation p.chains p.reads

tell-OfWatch :
    (most : ℕ) (result : Option Bool) (p : PathWatch)
    → OfWatch most p
    → OfWatch most (tell result p)
unfolding tell
tell-OfWatch most none p h = h
tell-OfWatch most (some r) p h = elim (Bool-cases p.stopped) [ inl e ↦ rw e h | inr e ↦ rw e h ]

step-OfWatch :
    (most delays : ℕ) (e : Event) (p : PathWatch)
    → OfWatch most p
    → OfWatch most (step most delays e p)
unfolding step refresh after_restart reading_settles settle_fires look_settles stop
step-OfWatch most delays refreshes p h = refresh-Holds most p.generation p.chains p.reads h
step-OfWatch most delays restarts p h = refresh-Holds most p.generation p.chains p.reads h
step-OfWatch most delays (reading mine result) p h =
    let p' = record p { chains = on_chain mine (settle_chain result) p.chains } in
    let t =
      tell-OfWatch most result p'
        (settled-Holds most p.generation mine result p.chains p.reads h) in
    elim (Bool-cases (has_reading mine p.chains)) [ inl e ↦ rw e t | inr e ↦ rw e h ]
step-OfWatch most delays (retry_fires mine) p h =
    fired-Holds most p.generation mine p.stopped p.chains p.reads h
step-OfWatch most delays look_fires p h = elim (Bool-cases (p.settles == 0)) [
  | inl e ↦ rw e h
  | inr e ↦ elim (Bool-cases p.stopped) [
    | inl d ↦ rw (e, d) h
    | inr d ↦ rw (e, d) (looked-Holds most p.generation p.chains p.reads h)
  ]
]
step-OfWatch most delays (look result) p h =
    let p' = record p { looking = p.looking - 1 } in
    let t = tell-OfWatch most result p' h in
    elim (Bool-cases (p.looking == 0)) [ inl e ↦ rw e h | inr e ↦ rw e t ]
step-OfWatch most delays stops p h = clear-Holds most p.generation p.chains p.reads h

run-OfWatch :
    (most delays : ℕ) (es : List Event) (p : PathWatch)
    → OfWatch most p
    → OfWatch most (run most delays es p)
unfolding run
run-OfWatch most delays [] p h = h
run-OfWatch most delays (e ∷ es) p h =
    run-OfWatch most delays es (step most delays e p) (step-OfWatch most delays e p h)

-- However the timers and the readings come, each call of `refresh` reads the path at most once and then as often as
-- retries are allowed: asking again for a pair that never comes ends.
pub readings_end :
    (most delays : ℕ) (es : List Event) (mine : ℕ)
    → 1 ≤ mine
    → reads_of mine (run most delays es fresh).reads ≤ 1 + most
readings_end most delays es mine positive =
    let p = run most delays es fresh in
    let start : OfWatch most fresh = record {
      capped = tt;
      single = λ m. omega arith;
      later = λ m q. refl;
      read = λ m q. omega arith;
    } in
    let h = run-OfWatch most delays es fresh start in
    let a = h.read mine positive in
    let b = counted-Capped most mine p.chains h.capped in let c = h.single mine in grind arith
