-- ===== src/Direct/Session/SenderEnd/Tests.antt =====
-- The sending end on a concrete run (class SenderSession of src/direct/session.ts): an invitation, an offer
-- that is accepted, and the answer with the key.
use wildbloom.Prelude.{◌≡◌, true, false, List, [], ◌∷◌, ◌⊎◌}
use wildbloom.Prelude.Text.{codes}
use wildbloom.Direct.Messages.{invite, accept}
use wildbloom.Direct.Session.Sending.{fresh, came}
use wildbloom.Direct.Session.SenderEnd.{
  Event, run, good, invite_read, offers, offer_told, offer_read, sends, encoded, answered,
  answer_told, link_turns, link_settles,
}
use wildbloom.Direct.Session.SenderEnd.Agreement.{NoKey, has_agreed}
use wildbloom.Direct.Session.SenderEnd.Key.{key_after_accept}

abbrev agreeing : List Event
agreeing =
    invite_read (came (invite false [] (codes "id") 9))
    ∷ offers (codes "a.txt") 7 (codes "text/plain")
    ∷ link_turns
    ∷ link_settles
    ∷ offer_told (good tt)
    ∷ offer_read (came (accept (codes "offer")))
    ∷ sends
    ∷ encoded (good tt)
    ∷ answered (good (codes "key", codes "answer"))
    ∷ link_turns
    ∷ link_settles
    ∷ answer_told (good tt)
    ∷ []

key_after_accept_example :
    let s = run agreeing fresh in NoKey s.link ⊎ (has_agreed s.max s.size s.offer_sdp ≡ true)
key_after_accept_example = key_after_accept agreeing
