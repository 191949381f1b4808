-- ===== src/Direct/Path.antt =====
-- The watch on the selected path (watchPath of src/direct/pacing.ts). Each call, each timer that fires and each
-- reading that settles is an event; a reading that throws gives `none`.
pub mod Chains
pub mod Readings
pub mod Stopped
mod Tests
use wildbloom.Prelude.{
  ℕ, ◌+◌, ◌-◌, Bool, true, false, not, ◌&&◌, ◌||◌, if◌then◌else◌, List, [], ◌∷◌, Option, none, some,
  leb, ◌==◌, map,
}

-- Where the readings of one `refresh` are: the first one, a timer, one that the timer began, or none.
pub data Place : Type 0 where
  first waiting again done : Place

-- The variables of one call of `refresh`.
pub record Chain : Type 0 where
  pub mine : ℕ
  pub attempts : ℕ
  pub place : Place

pub record PathWatch : Type 0 where
  pub generation : ℕ
  pub stopped : Bool
  pub chains : List Chain
  pub settles : ℕ  -- the timers in `settles`
  pub looking : ℕ  -- the readings that they began and that have not settled
  pub reads : List ℕ  -- the calls of `read`, the newest first: the `mine` of a `refresh`, or 0 for a timer in `settles`
  pub applied : List Bool  -- the calls of `apply`, the newest first

abbrev pub fresh : PathWatch
fresh = record {
  generation = 0;
  stopped = false;
  chains = [];
  settles = 0;
  looking = 0;
  reads = [];
  applied = [];
}

-- `clear(retries)`, for one call of `refresh`.
abbrev pub clear_place : Place → Place
clear_place waiting = done
clear_place place = place

abbrev pub clear_chain : Chain → Chain
clear_chain c = record c { place = clear_place c.place }

-- `readOnce`, when the reading settles.
pub tell : Option Bool → PathWatch → PathWatch
tell none p = p
tell (some relayed) p = if p.stopped then p else record p { applied = relayed ∷ p.applied }

-- `refresh()`, up to its `await`.
pub refresh : PathWatch → PathWatch
refresh p = record p {
  generation = p.generation + 1;
  chains =
      record { mine = p.generation + 1; attempts = 0; place = first } ∷ map clear_chain p.chains;
  reads = (p.generation + 1) ∷ p.reads;
}

-- A reading of a chain settles: without a pair it is asked again later.
abbrev pub settle_place : Option Bool → Place → Place
settle_place none first = waiting
settle_place none again = waiting
settle_place (some relayed) first = done
settle_place (some relayed) again = done
settle_place result place = place

abbrev pub settle_chain : Option Bool → Chain → Chain
settle_chain result c = record c { place = settle_place result c.place }

-- `again()`, when the timer fires.
abbrev pub try_again : ℕ → ℕ → Chain → Chain
try_again generation most c =
    if not (c.mine == generation) || leb most c.attempts
    then record c { place = done }
    else record c { attempts = c.attempts + 1; place = again }

abbrev pub is_waiting : Place → Bool
is_waiting waiting = true
is_waiting _ = false

abbrev pub fire_chain : Bool → ℕ → ℕ → Chain → Chain
fire_chain stopped generation most c =
    if is_waiting c.place
    then (if stopped then record c { place = done } else try_again generation most c)
    else c

-- The chain of one call is changed.
abbrev pub on_chain : ℕ → (Chain → Chain) → List Chain → List Chain
on_chain mine change [] = []
on_chain mine change (c ∷ cs) = (if c.mine == mine then change c else c) ∷ on_chain mine change cs

abbrev pub is_reading : Place → Bool
is_reading first = true
is_reading again = true
is_reading _ = false

-- `readOnce` was called between the two: the timer's turn has become a reading.
abbrev pub has_begun : Chain → Chain → Bool
has_begun before after = is_waiting before.place && is_reading after.place

-- The calls of `read`, when the chain of one call is changed.
abbrev pub begin_reads : ℕ → (Chain → Chain) → List Chain → List ℕ → List ℕ
begin_reads mine change [] reads = reads
begin_reads mine change (c ∷ cs) reads =
    let rest = begin_reads mine change cs reads in
    if (c.mine == mine) && has_begun c (change c) then c.mine ∷ rest else rest

-- The call has a reading that has not settled.
abbrev pub has_reading : ℕ → List Chain → Bool
has_reading mine [] = false
has_reading mine (c ∷ cs) = ((c.mine == mine) && is_reading c.place) || has_reading mine cs

pub reading_settles : ℕ → Option Bool → PathWatch → PathWatch
reading_settles mine result p =
    if has_reading mine p.chains
    then (let p' = record p { chains = on_chain mine (settle_chain result) p.chains } in
        tell result p')
    else p

-- `afterRestart()`, which looks again after each of `delays` delays.
pub after_restart : ℕ → PathWatch → PathWatch
after_restart delays p = let p' = refresh p in record p' { settles = delays }

-- One of the timers in `settles` fires.
pub settle_fires : PathWatch → PathWatch
settle_fires p =
    if p.settles == 0
    then p
    else if p.stopped
    then record p { settles = p.settles - 1 }
    else record p { settles = p.settles - 1; looking = p.looking + 1; reads = 0 ∷ p.reads }

-- Such a reading settles.
pub look_settles : Option Bool → PathWatch → PathWatch
look_settles result p =
    if p.looking == 0 then p else (let p' = record p { looking = p.looking - 1 } in tell result p')

-- `stop()`.
pub stop : PathWatch → PathWatch
stop p = record p { stopped = true; chains = map clear_chain p.chains; settles = 0 }

pub data Event : Type 0 where
  refreshes restarts : Event
  reading : ℕ → Option Bool → Event
  retry_fires : ℕ → Event
  look_fires : Event
  look : Option Bool → Event
  stops : Event

module _ (most delays : ℕ) where
  pub step : Event → PathWatch → PathWatch
  step refreshes p = refresh p
  step restarts p = after_restart delays p
  step (reading mine result) p = reading_settles mine result p
  step (retry_fires mine) p = record p {
    chains = on_chain mine (fire_chain p.stopped p.generation most) p.chains;
    reads = begin_reads mine (fire_chain p.stopped p.generation most) p.chains p.reads;
  }
  step look_fires p = settle_fires p
  step (look result) p = look_settles result p
  step stops p = stop p

  pub run : List Event → PathWatch → PathWatch
  run [] p = p
  run (e ∷ es) p = run es (step e p)
