-- ===== src/Direct/Session/ReceiverEnd/Tests.antt =====
-- The receiving end on a concrete run (class ReceiverSession of src/direct/session.ts): an invitation, a manifest
-- that is accepted, the page's answer, and a restart that is answered.
use wildbloom.Prelude.{false, ◌≤◌, List, [], ◌∷◌}
use wildbloom.Prelude.Text.{codes}
use wildbloom.Direct.Config.{max_restarts}
use wildbloom.Direct.Messages.{manifest, answer, restart_answer}
use wildbloom.Direct.Session.Link.Tally.{taken_of}
use wildbloom.Direct.Session.Sending.{came}
use wildbloom.Direct.Session.SenderEnd.{good}
use wildbloom.Direct.Session.Receiving.{fresh}
use wildbloom.Direct.Session.ReceiverEnd.{
  Event, run, invites, invite_told, manifest_read, accepts, offered, accept_told, answer_read,
  answer_applied, sink_ready, channel_open, restarts, turn_comes, restart_offered, restart_told,
  message_read, answer_used, link_turns, link_settles,
}
use wildbloom.Direct.Session.ReceiverEnd.Order.{is_restart}
use wildbloom.Direct.Session.ReceiverEnd.Restarts.{restarts_bounded}

abbrev restarting : List Event
restarting =
    invites false [] (codes "id") 9
    ∷ link_turns
    ∷ link_settles
    ∷ invite_told (good tt)
    ∷ manifest_read (came (manifest (codes "a.txt") 7 (codes "text/plain")))
    ∷ accepts (good tt)
    ∷ offered (good (codes "offer"))
    ∷ link_turns
    ∷ link_settles
    ∷ accept_told (good tt)
    ∷ answer_read (came (answer (codes "key") (codes "answer")))
    ∷ answer_applied (good tt)
    ∷ sink_ready (good tt)
    ∷ channel_open (good tt)
    ∷ restarts
    ∷ turn_comes
    ∷ restart_offered (good (codes "again"))
    ∷ link_turns
    ∷ link_settles
    ∷ restart_told (good tt)
    ∷ message_read (came (restart_answer (codes "so")))
    ∷ answer_used
    ∷ []

restarts_bounded_example :
    let s = run restarting fresh in
    (taken_of is_restart s.link ≤ s.restarts_used) × (s.restarts_used ≤ max_restarts)
restarts_bounded_example = restarts_bounded restarting
