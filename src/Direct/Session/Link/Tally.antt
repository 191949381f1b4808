-- ===== src/Direct/Session/Link/Tally.antt =====
-- How many of the messages that a link has taken are of a kind (class Link of src/direct/session.ts).
use wildbloom.Prelude.{
  ℕ, ◌+◌, ◌≤◌, ◌≡◌, Bool, true, false, List, [], ◌∷◌, ◌++◌, Option, none, some, arith,
}
use wildbloom.Direct.Messages.{DirectMessage, StopReason}
use wildbloom.Direct.Session.Link.{
  Message, stop, body, Link, send, send_stop, Decoded, good_stop, good_body, bad, read, end_link,
  hand_over, settle,
}

abbrev pub one_if : Bool → ℕ
one_if true = 1
one_if false = 0

-- How many messages pass the test; a stop is none of them.
abbrev pub tally : (DirectMessage → Bool) → List Message → ℕ
tally test [] = 0
tally test (stop reason ∷ ms) = tally test ms
tally test (body m ∷ ms) = one_if (test m) + tally test ms

tally-append :
    (test : DirectMessage → Bool) (ms ns : List Message)
    → tally test (ms ++ ns) ≡ tally test ms + tally test ns
tally-append test [] ns = omega arith
tally-append test (stop reason ∷ ms) ns = tally-append test ms ns
tally-append test (body m ∷ ms) ns = omega (arith, tally-append test ms ns)

abbrev pub taken_of : (DirectMessage → Bool) → Link → ℕ
taken_of test l = tally test l.handed + tally test l.waiting

module _ (test : DirectMessage → Bool) (n : ℕ) where
  pub send_tally :
      (m : DirectMessage) (l : Link)
      → taken_of test l + one_if (test m) ≤ n
      → taken_of test (send (body m) l) ≤ n
  unfolding send
  send_tally m l h = let q = tally-append test l.waiting (body m ∷ []) in ground arith

  pub send_stop_tally :
      (r : StopReason) (l : Link) → taken_of test l ≤ n → taken_of test (send_stop r l) ≤ n
  unfolding send_stop send
  send_stop_tally r l h = let q = tally-append test l.waiting (stop r ∷ []) in ground arith

  pub read_tally : (d : Decoded) (l : Link) → taken_of test l ≤ n → taken_of test (read d l) ≤ n
  unfolding read
  read_tally good_stop l h = ground arith
  read_tally good_body l h = ground arith
  read_tally (bad r) l h =
      let q = send_stop_tally r (record l { received_count = l.received_count + 1 }) h in
      ground arith

  pub end_link_tally : (l : Link) → taken_of test l ≤ n → taken_of test (end_link l) ≤ n
  unfolding end_link
  end_link_tally l h = ground arith

  turn_tally :
      (ms : List Message) (o : Option Message) (l : Link)
      → tally test l.handed + tally test ms ≤ n
      → taken_of test l ≤ n
      → taken_of test (hand_over ms o l) ≤ n
  unfolding hand_over
  turn_tally (stop r ∷ ms) none l g h = omega (arith, g, tally-append test l.handed (stop r ∷ []))
  turn_tally (body m ∷ ms) none l g h = omega (arith, g, tally-append test l.handed (body m ∷ []))
  turn_tally [] none l g h = h
  turn_tally [] (some m) l g h = h
  turn_tally (m ∷ ms) (some o) l g h = h

  pub hand_over_tally :
      (l : Link) → taken_of test l ≤ n → taken_of test (hand_over l.waiting l.busy l) ≤ n
  hand_over_tally l h = turn_tally l.waiting l.busy l h h

  pub settle_tally :
      (o : Option Message) (l : Link) → taken_of test l ≤ n → taken_of test (settle o l) ≤ n
  unfolding settle
  settle_tally none l h = h
  settle_tally (some m) l h = ground arith
