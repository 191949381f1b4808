-- ===== src/Direct/Path/Chains.antt =====
-- The calls of `refresh` in a list, and the readings that they count (watchPath of src/direct/pacing.ts).
use wildbloom.Prelude.{
  ℕ, ◌+◌, ◌*◌, ◌≤◌, ◌≡◌, refl, Bool, ◌&&◌, if◌then◌else◌, List, [], ◌∷◌, Option, none, some, map,
  ◌==◌, All, arith,
}
use wildbloom.Direct.Path.{
  Place, first, waiting, again, done, settle_place, Chain, clear_chain, settle_chain, fire_chain,
  on_chain, has_begun, begin_reads, is_waiting, is_reading,
}

-- How often a call of `refresh` has read the path.
abbrev pub reads_of : ℕ → List ℕ → ℕ
reads_of mine [] = 0
reads_of mine (n ∷ ns) = (if n == mine then 1 else 0) + reads_of mine ns

-- The chains with this number, and the readings that they count.
abbrev pub chains_of : ℕ → List Chain → ℕ
chains_of mine [] = 0
chains_of mine (c ∷ cs) = (if c.mine == mine then 1 else 0) + chains_of mine cs

abbrev pub counted : ℕ → List Chain → ℕ
counted mine [] = 0
counted mine (c ∷ cs) = (if c.mine == mine then 1 + c.attempts else 0) + counted mine cs

abbrev pub Capped : ℕ → List Chain → Type 0
Capped most = All (λ c. c.attempts ≤ most)

-- A change of one chain: it keeps its number and its cap, and a reading that it begins is counted.
pub record Counts (most : ℕ) (change : Chain → Chain) : Type 0 where
  pub same : (c : Chain) → (change c).mine ≡ c.mine
  pub capped : (c : Chain) → c.attempts ≤ most → (change c).attempts ≤ most
  pub begun :
      (c : Chain) → (if has_begun c (change c) then 1 else 0) + c.attempts ≤ (change c).attempts

pub on_chain-Capped :
    (most mine : ℕ) (change : Chain → Chain) (cs : List Chain)
    → Counts most change
    → Capped most cs
    → Capped most (on_chain mine change cs)
on_chain-Capped most mine change [] k h = tt
on_chain-Capped most mine change (c ∷ cs) k (q, h) =
    let r = k.capped c q in (ground arith, on_chain-Capped most mine change cs k h)

pub chains_of-on_chain :
    (most m mine : ℕ) (change : Chain → Chain) (cs : List Chain)
    → Counts most change
    → chains_of m (on_chain mine change cs) ≡ chains_of m cs
chains_of-on_chain most m mine change [] k = refl
chains_of-on_chain most m mine change (c ∷ cs) k =
    let r = chains_of-on_chain most m mine change cs k in let s = k.same c in ground arith

pub reads_of-begin_reads :
    (most m mine : ℕ) (change : Chain → Chain) (cs : List Chain) (reads : List ℕ)
    → Counts most change
    → reads_of m (begin_reads mine change cs reads) + counted m cs
      ≤ reads_of m reads + counted m (on_chain mine change cs)
reads_of-begin_reads most m mine change [] reads k = omega arith
reads_of-begin_reads most m mine change (c ∷ cs) reads k =
    let r = reads_of-begin_reads most m mine change cs reads k in
    let s = k.same c in let b = k.begun c in ground arith

pub map_clear-Capped :
    (most : ℕ) (cs : List Chain) → Capped most cs → Capped most (map clear_chain cs)
map_clear-Capped most [] h = tt
map_clear-Capped most (c ∷ cs) (q, h) = (q, map_clear-Capped most cs h)

pub chains_of-map_clear :
    (m : ℕ) (cs : List Chain) → chains_of m (map clear_chain cs) ≡ chains_of m cs
chains_of-map_clear m [] = refl
chains_of-map_clear m (c ∷ cs) = let r = chains_of-map_clear m cs in ground arith

pub counted-map_clear : (m : ℕ) (cs : List Chain) → counted m (map clear_chain cs) ≡ counted m cs
counted-map_clear m [] = refl
counted-map_clear m (c ∷ cs) = let r = counted-map_clear m cs in ground arith

pub counted-Capped :
    (most m : ℕ) (cs : List Chain) → Capped most cs → counted m cs ≤ chains_of m cs * (1 + most)
counted-Capped most m [] h = omega arith
counted-Capped most m (c ∷ cs) (q, h) = let r = counted-Capped most m cs h in grind arith

pub fire-begun :
    (stopped : Bool) (generation most mine attempts : ℕ) (place : Place)
    → let c : Chain = record { mine = mine; attempts = attempts; place = place } in
      (if has_begun c (fire_chain stopped generation most c) then 1 else 0) + attempts
      ≤ (fire_chain stopped generation most c).attempts
fire-begun stopped generation most mine attempts first = ground arith
fire-begun stopped generation most mine attempts waiting = ground arith
fire-begun stopped generation most mine attempts again = ground arith
fire-begun stopped generation most mine attempts done = ground arith

pub fire_chain-Counts :
    (stopped : Bool) (generation most : ℕ) → Counts most (fire_chain stopped generation most)
fire_chain-Counts stopped generation most = record {
  same = λ c. ground arith;
  capped = λ c q. ground arith;
  begun = λ c. fire-begun stopped generation most c.mine c.attempts c.place;
}

pub settle_chain-Counts : (most : ℕ) (result : Option Bool) → Counts most (settle_chain result)
settle_chain-Counts most result = record {
  same = λ c. refl;
  capped = λ c q. q;
  begun = λ c. settle-begun result c.attempts c.place;
}
  where
    settle-begun :
        (result : Option Bool) (attempts : ℕ) (place : Place)
        → (if is_waiting place && is_reading (settle_place result place) then 1 else 0) + attempts
          ≤ attempts
    settle-begun none attempts first = ground arith
    settle-begun none attempts waiting = ground arith
    settle-begun none attempts again = ground arith
    settle-begun none attempts done = ground arith
    settle-begun (some r) attempts first = ground arith
    settle-begun (some r) attempts waiting = ground arith
    settle-begun (some r) attempts again = ground arith
    settle-begun (some r) attempts done = ground arith

pub counted-settle_chain :
    (m mine : ℕ) (result : Option Bool) (cs : List Chain)
    → counted m (on_chain mine (settle_chain result) cs) ≡ counted m cs
counted-settle_chain m mine result [] = refl
counted-settle_chain m mine result (c ∷ cs) =
    let r = counted-settle_chain m mine result cs in ground arith
