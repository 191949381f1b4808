-- ===== src/Direct/Session/Link/Taken.antt =====
-- What holds of each message that a link has taken (class Link of src/direct/session.ts).
use wildbloom.Prelude.{◌+◌, true, List, [], ◌∷◌, ◌++◌, Option, none, some, arith, All}
use wildbloom.Direct.Messages.{DirectMessage, StopReason}
use wildbloom.Direct.Session.Link.{
  Message, stop, body, Link, send, send_stop, Decoded, good_stop, good_body, bad, read, end_link,
  hand_over, settle,
}

module _ (B : Message → Type 0) (b : (r : StopReason) → B (stop r)) where
  All-append :
      (ms ns : List Message) (m : Message) → B m → All B (ms ++ ns) → All B (ms ++ (ns ++ (m ∷ [])))
  All-append [] [] m p h = (p, tt)
  All-append [] (n ∷ ns) m p (q, h) = (q, All-append [] ns m p h)
  All-append (n ∷ ms) ns m p (q, h) = (q, All-append ms ns m p h)

  All-move :
      (ms ns : List Message) (m : Message) → All B (ms ++ (m ∷ ns)) → All B ((ms ++ (m ∷ [])) ++ ns)
  All-move [] ns m h = h
  All-move (n ∷ ms) ns m (q, h) = (q, All-move ms ns m h)

  abbrev pub Taken : Link → Type 0
  Taken l = All B (l.handed ++ l.waiting)

  send-any : (m : Message) (l : Link) → B m → Taken l → Taken (send m l)
  unfolding send
  send-any m l p h = let q = All-append l.handed l.waiting m p h in ground arith

  pub send-Taken : (m : DirectMessage) (l : Link) → B (body m) → Taken l → Taken (send (body m) l)
  send-Taken m l p h = send-any (body m) l p h

  pub send_stop-Taken : (r : StopReason) (l : Link) → Taken l → Taken (send_stop r l)
  unfolding send_stop
  send_stop-Taken r l h =
      let q = send-any (stop r) (record l { stopped = true; stop_sent = true }) (b r) h in
      ground arith

  pub read-Taken : (d : Decoded) (l : Link) → Taken l → Taken (read d l)
  unfolding read
  read-Taken good_stop l h = ground arith
  read-Taken good_body l h = ground arith
  read-Taken (bad r) l h =
      let q = send_stop-Taken r (record l { received_count = l.received_count + 1 }) h in
      ground arith

  pub end_link-Taken : (l : Link) → Taken l → Taken (end_link l)
  unfolding end_link
  end_link-Taken l h = ground arith

  turn-Taken :
      (ms : List Message) (o : Option Message) (l : Link)
      → All B (l.handed ++ ms)
      → Taken l
      → Taken (hand_over ms o l)
  unfolding hand_over
  turn-Taken (m ∷ ms) none l g h = All-move l.handed ms m g
  turn-Taken [] none l g h = h
  turn-Taken [] (some m) l g h = h
  turn-Taken (n ∷ ms) (some m) l g h = h

  pub hand_over-Taken : (l : Link) → Taken l → Taken (hand_over l.waiting l.busy l)
  hand_over-Taken l h = turn-Taken l.waiting l.busy l h h

  pub settle-Taken : (o : Option Message) (l : Link) → Taken l → Taken (settle o l)
  unfolding settle
  settle-Taken none l h = h
  settle-Taken (some m) l h = ground arith
