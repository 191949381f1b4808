-- ===== src/Direct/Session/Link/Tests.antt =====
-- A link's theorems on one history (class Link of src/direct/session.ts).
use wildbloom.Prelude.{◌≡◌, ◌≤◌, true, List, [], ◌∷◌, ◌++◌, length}
use wildbloom.Direct.Config.{messages_per_side}
use wildbloom.Direct.Messages.{failed_reason, restart}
use wildbloom.Direct.Session.Link
use wildbloom.Direct.Session.Link.Stops.{StopsLast, HasStop, link_order}

-- A manifest goes out, the other end sends what is not allowed, and the session ends.
abbrev history : List Link.Event
history =
    Link.sends (restart [])
    ∷ Link.turns
    ∷ Link.reads (Link.bad failed_reason)
    ∷ Link.ends
    ∷ Link.settles
    ∷ Link.turns
    ∷ Link.settles
    ∷ []

link_order_example :
    let l = Link.run history Link.fresh in
    (length l.accepted ≤ messages_per_side)
    × (l.accepted ≡ l.handed ++ l.waiting)
    × StopsLast l.accepted
    × (l.closed ≡ true → l.stop_sent ≡ true → HasStop l.handed)
link_order_example = link_order history
