-- ===== src/Direct/Session/Link/Stops.antt =====
-- What a link sends, and when its exchange closes (class Link of src/direct/session.ts).
use wildbloom.Prelude.{
  ℕ, ◌+◌, ◌≤◌, ◌≡◌, refl, sym, ap, ◌∙◌, subst, suc, Bool, true, false, List, [], ◌∷◌, ◌++◌, Option,
  none, some, ◌⊎◌, inl, inr, length, Any, All, arith, append_assoc, length-append,
}
use wildbloom.Direct.Config.{messages_per_side}
use wildbloom.Direct.Messages.{StopReason, DirectMessage}
use wildbloom.Direct.Session.Link.InOrder.{InOrder, run-InOrder}
use wildbloom.Direct.Session.Link.{
  Message, stop, body, is_stop, Link, fresh, send, send_stop, Decoded, good_stop, good_body, bad,
  read, end_link, hand_over, settle, Event, sends, stops, reads, ends, turns, settles, step, run,
}

-- Every message that was taken: handed over, or waiting.
abbrev pub taken : Link → List Message
taken l = l.handed ++ l.waiting

-- Nothing follows a stop.
abbrev pub StopsLast : List Message → Type 0
StopsLast [] = Unit
StopsLast (stop reason ∷ ms) = ms ≡ []
StopsLast (body bytes ∷ ms) = StopsLast ms

abbrev pub NoStops : List Message → Type 0
NoStops = All (λ m. is_stop m ≡ false)

StopsLast-append : (ms : List Message) (m : Message) → NoStops ms → StopsLast (ms ++ (m ∷ []))
StopsLast-append [] (stop reason) h = refl
StopsLast-append [] (body bytes) h = tt
StopsLast-append (stop reason ∷ ms) m (q, h) = ground arith
StopsLast-append (body bytes ∷ ms) m (q, h) = StopsLast-append ms m h

NoStops-append :
    (ms : List Message) (b : DirectMessage) → NoStops ms → NoStops (ms ++ (body b ∷ []))
NoStops-append [] b h = (refl, tt)
NoStops-append (m ∷ ms) b (q, h) = (q, NoStops-append ms b h)

-- There is a stop among the messages.
abbrev pub HasStop : List Message → Type 0
HasStop = Any (λ m. is_stop m ≡ true)

HasStop-append :
    (ms : List Message) (m : Message) → HasStop ms ⊎ (is_stop m ≡ true) → HasStop (ms ++ (m ∷ []))
HasStop-append [] m (inl h) = absurd h
HasStop-append [] m (inr p) = inl p
HasStop-append (n ∷ ms) m (inl (inl q)) = inl q
HasStop-append (n ∷ ms) m (inl (inr h)) = inr (HasStop-append ms m (inl h))
HasStop-append (n ∷ ms) m (inr p) = inr (HasStop-append ms m (inr p))

-- The messages that were taken, how many they are, and whether a stop is among them.
pub record Ordered (ms : List Message) (n : ℕ) (stop_sent : Bool) : Type 0 where
  pub count : length ms ≡ n
  pub last : StopsLast ms
  pub before : stop_sent ≡ false → NoStops ms

Ordered-body :
    (ms : List Message) (n : ℕ) (b : DirectMessage)
    → Ordered ms n false
    → Ordered (ms ++ (body b ∷ [])) (n + 1) false
Ordered-body ms n b o = record {
  count = omega (arith, o.count, length-append ms (body b ∷ []));
  last = StopsLast-append ms (body b) (o.before refl);
  before = λ _. NoStops-append ms b (o.before refl);
}

Ordered-stop :
    (ms : List Message) (n : ℕ) (reason : StopReason)
    → Ordered ms n false
    → Ordered (ms ++ (stop reason ∷ [])) (n + 1) true
Ordered-stop ms n reason o = record {
  count = omega (arith, o.count, length-append ms (stop reason ∷ []));
  last = StopsLast-append ms (stop reason) (o.before refl);
  before = λ p. ground arith;
}

-- What holds of a link between any two events.
pub record Fits (l : Link) : Type 0 where
  pub ordered : Ordered (taken l) l.sent_count l.stop_sent
  pub bound : l.sent_count ≤ messages_per_side
  pub quiet : l.stop_sent ≡ true → l.stopped ≡ true
  pub gone : l.stop_gone ≡ true → HasStop l.handed
  pub going : (m : Message) → l.busy ≡ some m → is_stop m ≡ true → HasStop l.handed
  pub shut : l.closed ≡ true → l.ended ≡ true
  pub held : l.closed ≡ true → l.stop_sent ≡ true → l.stop_gone ≡ true

-- A body is taken.
body-Fits :
    (l : Link) (b : DirectMessage)
    → l.stop_sent ≡ false
    → suc l.sent_count ≤ messages_per_side
    → Fits l
    → Fits (record l {
      sent_count = l.sent_count + 1;
      waiting = l.waiting ++ (body b ∷ []);
      accepted = l.accepted ++ (body b ∷ []);
    })
body-Fits l b p q f = record {
  ordered =
      subst (λ ms. Ordered ms (l.sent_count + 1) l.stop_sent)
        (append_assoc l.handed l.waiting (body b ∷ []))
        (subst (λ x. Ordered (taken l ++ (body b ∷ [])) (l.sent_count + 1) x) (sym p)
          (Ordered-body (taken l) l.sent_count b
            (subst (λ x. Ordered (taken l) l.sent_count x) p f.ordered)));
  bound = omega (arith, q);
  quiet = f.quiet;
  gone = f.gone;
  going = f.going;
  shut = f.shut;
  held = f.held;
}

-- A stop is taken.
stop-Fits :
    (l : Link) (reason : StopReason)
    → l.stop_sent ≡ false
    → l.ended ≡ false
    → suc l.sent_count ≤ messages_per_side
    → Fits l
    → Fits (record l {
      stopped = true;
      stop_sent = true;
      sent_count = l.sent_count + 1;
      waiting = l.waiting ++ (stop reason ∷ []);
      accepted = l.accepted ++ (stop reason ∷ []);
    })
stop-Fits l reason p e q f = record {
  ordered =
      subst (λ ms. Ordered ms (l.sent_count + 1) true)
        (append_assoc l.handed l.waiting (stop reason ∷ []))
        (Ordered-stop (taken l) l.sent_count reason
          (subst (λ x. Ordered (taken l) l.sent_count x) p f.ordered));
  bound = omega (arith, q);
  quiet = λ _. refl;
  gone = f.gone;
  going = f.going;
  shut = f.shut;
  held = λ c _. ground arith;
}

pub send-Fits : (b : DirectMessage) (l : Link) → Fits l → Fits (send (body b) l)
unfolding send
send-Fits b l f = ground (arith, body-Fits l b)

pub send_stop-Fits : (reason : StopReason) (l : Link) → Fits l → Fits (send_stop reason l)
unfolding send_stop send
send_stop-Fits reason l f = ground (arith, stop-Fits l reason)

pub end_link-Fits : (l : Link) → Fits l → Fits (end_link l)
unfolding end_link
end_link-Fits l f = ground arith

pub hand_over-Fits :
    (ms : List Message) (b : Option Message) (l : Link)
    → ms ≡ l.waiting
    → Fits l
    → Fits (hand_over ms b l)
unfolding hand_over
hand_over-Fits [] none l p f = f
hand_over-Fits [] (some m) l p f = f
hand_over-Fits (n ∷ ms) (some m) l p f = f
hand_over-Fits (n ∷ ms) none l p f = record {
  ordered =
      subst (λ xs. Ordered xs l.sent_count l.stop_sent) (sym (append_assoc l.handed (n ∷ []) ms))
        (subst (λ w. Ordered (l.handed ++ w) l.sent_count l.stop_sent) (sym p) f.ordered);
  bound = f.bound;
  quiet = f.quiet;
  gone = λ g. HasStop-append l.handed n (inl (f.gone g));
  going = λ m e h. HasStop-append l.handed n (inr (grind arith));
  shut = f.shut;
  held = f.held;
}

pub settle-Fits : (b : Option Message) (l : Link) → b ≡ l.busy → Fits l → Fits (settle b l)
unfolding settle
settle-Fits none l p f = f
settle-Fits (some m) l p f = let h = f.going m (sym p) in ground arith

pub read-Fits : (d : Decoded) (l : Link) → Fits l → Fits (read d l)
unfolding read
read-Fits good_stop l f = ground arith
read-Fits good_body l f = ground arith
read-Fits (bad reason) l f =
    ground (arith, send_stop-Fits reason (record l { received_count = l.received_count + 1 }))

step-Fits : (e : Event) (l : Link) → Fits l → Fits (step e l)
unfolding step
step-Fits (sends bytes) l f = send-Fits bytes l f
step-Fits (stops reason) l f = send_stop-Fits reason l f
step-Fits (reads d) l f = read-Fits d l f
step-Fits ends l f = end_link-Fits l f
step-Fits turns l f = hand_over-Fits l.waiting l.busy l refl f
step-Fits settles l f = settle-Fits l.busy l refl f

run-Fits : (es : List Event) (l : Link) → Fits l → Fits (run es l)
unfolding run
run-Fits [] l f = f
run-Fits (e ∷ es) l f = run-Fits es (step e l) (step-Fits e l f)

-- Whatever one end does and reads, it takes at most eight messages; those that were handed to the exchange, and
-- behind them those that still wait, are the ones that were taken, in the order in which they were; nothing
-- follows a stop, so that there is at most one; and an exchange that was closed had been given the stop, if
-- this end sent one.
pub link_order :
    (es : List Event)
    → let l = run es fresh in
      (length l.accepted ≤ messages_per_side)
      × (l.accepted ≡ l.handed ++ l.waiting)
      × StopsLast l.accepted
      × (l.closed ≡ true → l.stop_sent ≡ true → HasStop l.handed)
link_order es =
    let f = run-Fits es fresh (ground arith) in
    let o : InOrder (run es fresh) = run-InOrder es fresh refl in
    (
      omega (arith, f.bound, f.ordered.count, ap length o),
      o,
      subst StopsLast (sym o) f.ordered.last,
      λ c s. f.gone (f.held c s),
    )

hand_over-silent :
    (ms : List Message) (b : Option Message) (l : Link)
    → ms ≡ l.waiting
    → l.stopped ≡ true
    → ((hand_over ms b l).stopped ≡ true)
      × ((hand_over ms b l).handed ++ (hand_over ms b l).waiting ≡ l.handed ++ l.waiting)
unfolding hand_over
hand_over-silent [] none l q p = (p, refl)
hand_over-silent [] (some m) l q p = (p, refl)
hand_over-silent (n ∷ ms) (some m) l q p = (p, refl)
hand_over-silent (n ∷ ms) none l q p =
    (p, append_assoc l.handed (n ∷ []) ms ∙ ap (λ w. l.handed ++ w) q)

settle-silent :
    (b : Option Message) (l : Link)
    → l.stopped ≡ true
    → ((settle b l).stopped ≡ true)
      × ((settle b l).handed ++ (settle b l).waiting ≡ l.handed ++ l.waiting)
unfolding settle
settle-silent none l p = (p, refl)
settle-silent (some m) l p = ground arith

step-silent :
    (e : Event) (l : Link)
    → l.stopped ≡ true
    → ((step e l).stopped ≡ true)
      × ((step e l).handed ++ (step e l).waiting ≡ l.handed ++ l.waiting)
unfolding step send send_stop read end_link
step-silent (sends bytes) l p = ground arith
step-silent (stops reason) l p = ground arith
step-silent (reads d) l p = ground arith
step-silent ends l p = ground arith
step-silent turns l p = hand_over-silent l.waiting l.busy l refl p
step-silent settles l p = settle-silent l.busy l p

-- Once the link has been stopped, by this end or the other, no more messages are taken, whatever happens.
pub stopped_silent :
    (es : List Event) (l : Link)
    → l.stopped ≡ true
    → (run es l).handed ++ (run es l).waiting ≡ l.handed ++ l.waiting
unfolding run
stopped_silent [] l p = refl
stopped_silent (e ∷ es) l p = let q = step-silent e l p in stopped_silent es (step e l) q.0 ∙ q.1
