-- ===== src/Direct/Session/Link/InOrder.antt =====
-- Messages leave a link in the order in which they were taken (class Link of src/direct/session.ts).
use wildbloom.Prelude.{
  ◌+◌, ◌≡◌, refl, sym, ap, ◌∙◌, true, List, [], ◌∷◌, ◌++◌, Option, none, some, arith, append_assoc,
}
use wildbloom.Direct.Messages.{StopReason}
use wildbloom.Direct.Session.Link.{
  Message, stop, body, Link, send, send_stop, Decoded, good_stop, good_body, bad, read, end_link,
  hand_over, settle, Event, sends, stops, reads, ends, turns, settles, step, run,
}

-- What was handed over and then what waits is what was taken.
abbrev pub InOrder : Link → Type 0
InOrder l = l.accepted ≡ l.handed ++ l.waiting

send-InOrder : (m : Message) (l : Link) → InOrder l → InOrder (send m l)
unfolding send
send-InOrder m l h =
    let e = ap (λ ms. ms ++ (m ∷ [])) h ∙ append_assoc l.handed l.waiting (m ∷ []) in ground arith

send_stop-InOrder : (reason : StopReason) (l : Link) → InOrder l → InOrder (send_stop reason l)
unfolding send_stop
send_stop-InOrder reason l h =
    let k = send-InOrder (stop reason) (record l { stopped = true; stop_sent = true }) h in
    ground arith

read-InOrder : (d : Decoded) (l : Link) → InOrder l → InOrder (read d l)
unfolding read
read-InOrder good_stop l h = ground arith
read-InOrder good_body l h = ground arith
read-InOrder (bad reason) l h =
    let k = send_stop-InOrder reason (record l { received_count = l.received_count + 1 }) h in
    ground arith

hand_over-InOrder :
    (ms : List Message) (b : Option Message) (l : Link)
    → ms ≡ l.waiting
    → InOrder l
    → InOrder (hand_over ms b l)
unfolding hand_over
hand_over-InOrder [] none l p h = h
hand_over-InOrder [] (some m) l p h = h
hand_over-InOrder (n ∷ ms) (some m) l p h = h
hand_over-InOrder (n ∷ ms) none l p h =
    h ∙ ap (λ w. l.handed ++ w) (sym p) ∙ sym (append_assoc l.handed (n ∷ []) ms)

settle-InOrder : (b : Option Message) (l : Link) → InOrder l → InOrder (settle b l)
unfolding settle
settle-InOrder none l h = h
settle-InOrder (some m) l h = ground arith

step-InOrder : (e : Event) (l : Link) → InOrder l → InOrder (step e l)
unfolding step end_link
step-InOrder (sends message) l h = send-InOrder (body message) l h
step-InOrder (stops reason) l h = send_stop-InOrder reason l h
step-InOrder (reads d) l h = read-InOrder d l h
step-InOrder ends l h = ground arith
step-InOrder turns l h = hand_over-InOrder l.waiting l.busy l refl h
step-InOrder settles l h = settle-InOrder l.busy l h

pub run-InOrder : (es : List Event) (l : Link) → InOrder l → InOrder (run es l)
unfolding run
run-InOrder [] l h = h
run-InOrder (e ∷ es) l h = run-InOrder es (step e l) (step-InOrder e l h)
