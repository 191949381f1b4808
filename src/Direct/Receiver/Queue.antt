-- ===== src/Direct/Receiver/Queue.antt =====
-- The steps that wait on the receiver's promise queue: their bytes and their order.
use wildbloom.Prelude.{
  ℕ, ◌+◌, ◌≤◌, ◌≡◌, refl, Bool, true, false, List, [], ◌∷◌, ◌++◌, Option, none, some, arith, length,
}
use wildbloom.Direct.Receiver.{Call, write, finish, discard}

-- The bytes of the writes that wait.
abbrev pub weight : List Call → ℕ
weight [] = 0
weight (write bytes ∷ q) = length bytes + weight q
weight (finish h n ∷ q) = weight q
weight (discard ∷ q) = weight q

-- The step at work, if there is one, before the steps that wait.
abbrev pub items : Option Call → List Call → List Call
items none q = q
items (some c) q = c ∷ q

abbrev pub Writes : List Call → Type 0
Writes [] = Unit
Writes (write bytes ∷ q) = Writes q
Writes (finish h n ∷ q) = ⊥
Writes (discard ∷ q) = ⊥

-- Writes, and then one `end`.
abbrev pub Closing : List Call → Type 0
Closing [] = ⊥
Closing (write bytes ∷ q) = Closing q
Closing (finish h n ∷ []) = Unit
Closing (finish h n ∷ c ∷ q) = ⊥
Closing (discard ∷ q) = ⊥

-- The steps at hand, by `endSeen` and `done`.
abbrev pub Stage : Bool → Bool → List Call → Type 0
Stage false false q = Writes q
Stage false true q = ⊥
Stage true false q = Closing q
Stage true true q = q ≡ []

pub weight-append : (p q : List Call) → weight (p ++ q) ≡ weight p + weight q
weight-append [] q = omega arith
weight-append (write bytes ∷ p) q = omega (arith, weight-append p q)
weight-append (finish h n ∷ p) q = weight-append p q
weight-append (discard ∷ p) q = weight-append p q

pub weight-items_append :
    (o : Option Call) (p q : List Call) → weight (items o (p ++ q)) ≡ weight (items o p) + weight q
weight-items_append none p q = weight-append p q
weight-items_append (some c) p q = weight-append (c ∷ p) q

pub Writes-append : (q : List Call) (bytes : List ℕ) → Writes q → Writes (q ++ (write bytes ∷ []))
Writes-append [] bytes h = tt
Writes-append (write b ∷ q) bytes h = Writes-append q bytes h
Writes-append (finish s n ∷ q) bytes h = absurd h
Writes-append (discard ∷ q) bytes h = absurd h

pub Closing-append :
    (q : List Call) (h : List ℕ) (n : ℕ) → Writes q → Closing (q ++ (finish h n ∷ []))
Closing-append [] h n w = tt
Closing-append (write b ∷ q) h n w = Closing-append q h n w
Closing-append (finish s m ∷ q) h n w = absurd w
Closing-append (discard ∷ q) h n w = absurd w

pub items-append : (o : Option Call) (p q : List Call) → items o (p ++ q) ≡ items o p ++ q
items-append none p q = refl
items-append (some c) p q = refl

module _ (bytes : List ℕ) (o : Option Call) (q : List Call) where
  pub queue_write-weight :
      weight (items o (q ++ (write bytes ∷ []))) ≡ weight (items o q) + length bytes
  queue_write-weight = omega (arith, weight-items_append o q (write bytes ∷ []))

  pub queue_write-Stage :
      Stage false false (items o q) → Stage false false (items o (q ++ (write bytes ∷ [])))
  queue_write-Stage h = rw (items-append o q (write bytes ∷ [])) (Writes-append (items o q) bytes h)

module _ (h : List ℕ) (n : ℕ) (o : Option Call) (q : List Call) where
  pub queue_finish-weight : weight (items o (q ++ (finish h n ∷ []))) ≡ weight (items o q)
  queue_finish-weight = omega (arith, weight-items_append o q (finish h n ∷ []))

  pub queue_finish-Stage :
      Stage false false (items o q) → Stage true false (items o (q ++ (finish h n ∷ [])))
  queue_finish-Stage s = rw (items-append o q (finish h n ∷ [])) (Closing-append (items o q) h n s)

pub weight-cons : (c : Call) (q : List Call) → weight q ≤ weight (c ∷ q)
weight-cons (write b) q = omega arith
weight-cons (finish h n) q = omega arith
weight-cons discard q = omega arith
