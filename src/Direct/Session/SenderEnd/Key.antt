-- ===== src/Direct/Session/SenderEnd/Key.antt =====
-- When the sending end gives its key (class SenderSession of src/direct/session.ts).
use wildbloom.Prelude.{
  ◌≡◌, refl, subst, ap, true, List, [], ◌∷◌, arith, Bool-cases, inl, inr, ◌⊎◌, if◌then◌else◌,
}
use wildbloom.Direct.Session.Failures
use wildbloom.Direct.Session.Link
use wildbloom.Direct.Session.Watch
use wildbloom.Direct.Session.Sending
use wildbloom.Direct.Session.Sending.{Session, Phase, Loop, close, leave, watched, heard, received}
use wildbloom.Direct.Session.SenderEnd
use wildbloom.Direct.Session.SenderEnd.{Event, Outcome, good, bad, step, run}
use wildbloom.Direct.Session.SenderEnd.Order.{step_kept}
use wildbloom.Direct.Session.SenderEnd.Agreement.{
  NoKey, NoKey-Kept, has_agreed, agreed, early, under_way, Deal, Advances, From, same-Advances,
  throw-Advances, leave-Advances, watched-Advances, on_invite-Advances, on_offer-Advances,
  on_offer_reply-Advances, on_restart_message-Advances, on_stop_told-Advances,
  on_restart_answer-Advances, on_restart_told-Advances, on_answer-Advances, on_encoded-Advances,
  on_transferred-Advances, on_stop-Advances,
}

abandon-Advances : (s : Session) → From s (if s.gave_up then leave Failures.connect s else s)
abandon-Advances s = elim (Bool-cases s.gave_up) [
  | inl t ↦ simp t (leave-Advances Failures.connect s)
  | inr t ↦ simp t (same-Advances s)
]

watching-Advances :
    (w : Watch.Watch) (s' : Session) (s : Session)
    → From s (watched w s')
    → From s (if s.peer_made then watched w s' else s)
watching-Advances w s' s a = elim (Bool-cases s.peer_made) [
  | inl t ↦ simp t a
  | inr t ↦ simp t (same-Advances s)
]

moved :
    (s : Session) {t : Session} {phase : Phase}
    → s.phase ≡ phase
    → From s t
    → Advances phase s.max s.size s.offer_sdp t
moved s {t} p a = subst (λ x. Advances x s.max s.size s.offer_sdp t) p a

step-Advances :
    (e : Event) (phase : Phase) (loop : Loop) (s : Session)
    → s.phase ≡ phase
    → Advances phase s.max s.size s.offer_sdp (step e phase loop s)
unfolding step close
step-Advances (SenderEnd.invite_read inc) Sending.starting loop s p =
    on_invite-Advances (heard inc s) (received inc s)
step-Advances (SenderEnd.offers name size type) Sending.invited loop s p =
    moved s p (on_offer-Advances name size type s.max s refl p)
step-Advances (SenderEnd.offer_told (good _)) Sending.offering loop s p = ground arith
step-Advances (SenderEnd.offer_told (bad d)) Sending.offering loop s p =
    moved s p (throw-Advances d s)
step-Advances (SenderEnd.offer_read inc) Sending.awaiting loop s p =
    on_offer_reply-Advances (heard inc s) (received inc s)
step-Advances SenderEnd.sends Sending.accepted loop s p = ground arith
step-Advances (SenderEnd.encoded result) Sending.encoding loop s p = on_encoded-Advances result s
step-Advances (SenderEnd.answered result) Sending.answering loop s p =
    moved s p (on_answer-Advances result s)
step-Advances (SenderEnd.answer_told (good _)) Sending.telling loop s p = ground arith
step-Advances (SenderEnd.answer_told (bad d)) Sending.telling loop s p =
    moved s p (leave-Advances d s)
step-Advances (SenderEnd.channel_open (good _)) Sending.connecting loop s p = ground arith
step-Advances (SenderEnd.channel_open (bad d)) Sending.connecting loop s p =
    moved s p (leave-Advances d s)
step-Advances SenderEnd.path_read Sending.pathing loop s p = ground arith
step-Advances (SenderEnd.transferred result) Sending.transferring loop s p =
    moved s p (on_transferred-Advances result s)
step-Advances SenderEnd.watch_failed Sending.connecting loop s p = moved s p (abandon-Advances s)
step-Advances SenderEnd.watch_failed Sending.pathing loop s p = moved s p (abandon-Advances s)
step-Advances SenderEnd.watch_failed Sending.transferring loop s p = moved s p (abandon-Advances s)
step-Advances SenderEnd.drained (Sending.closing result) loop s p = ground arith
step-Advances (SenderEnd.restart_read inc) phase Sending.reading s p =
    moved s p (on_restart_message-Advances s.link.received_count (heard inc s) (received inc s))
step-Advances SenderEnd.stop_told phase Sending.telling_stop s p =
    moved s p (on_stop_told-Advances s)
step-Advances (SenderEnd.restart_answered result) phase Sending.reply s p =
    moved s p (on_restart_answer-Advances result s)
step-Advances (SenderEnd.restart_told result) phase Sending.telling_reply s p =
    moved s p (on_restart_told-Advances result s)
step-Advances (SenderEnd.peer_reports state) phase loop s p = moved s p (
    watching-Advances (Watch.evaluate state s.watch)
      (record s { peer_failed = SenderEnd.is_failed_state state }) s
      (watched-Advances (Watch.evaluate state s.watch)
        (record s { peer_failed = SenderEnd.is_failed_state state })))
step-Advances SenderEnd.connect_timeout phase loop s p =
    let w = Watch.connect_fires s.watch in
    moved s p (watching-Advances w s s (watched-Advances w s))
step-Advances SenderEnd.failed_timeout phase loop s p =
    let w = Watch.failed_fires s.watch in moved s p (watching-Advances w s s (watched-Advances w s))
step-Advances (SenderEnd.stops by_person immediate) phase loop s p =
    moved s p (on_stop-Advances by_person immediate s)
step-Advances (SenderEnd.refuses reason) phase loop s p =
    moved s p (same-Advances (record s { link = Link.read (Link.bad reason) s.link }))
step-Advances SenderEnd.closes phase loop s p = ground arith
step-Advances SenderEnd.link_turns phase loop s p =
    moved s p (same-Advances (record s { link = Link.hand_over s.link.waiting s.link.busy s.link }))
step-Advances SenderEnd.link_settles phase loop s p =
    moved s p (same-Advances (record s { link = Link.settle s.link.busy s.link }))
step-Advances e phase loop s p = moved s p (same-Advances s)

hushed-Deal :
    (e : Event) (s : Session)
    → early s.phase ≡ true
    → NoKey s.link
    → NoKey (step e s.phase s.loop s).link
hushed-Deal e s p h =
    elim (step_kept (NoKey-Kept ⊥) e s.phase s.loop s (λ n z t. inl refl) (λ x. inl refl)
      (λ q key sdp. ground arith) (inl h)) [ inl g ↦ g | inr z ↦ absurd z ]

sent-Deal :
    (e : Event) (s : Session)
    → Deal s
    → NoKey (step e s.phase s.loop s).link ⊎ (agreed (step e s.phase s.loop s) ≡ true)
sent-Deal e s d =
    elim (step_kept (NoKey-Kept (agreed s ≡ true)) e s.phase s.loop s (λ n z t. inl refl)
      (λ x. inl refl) (λ q key sdp. inr (d.taken (ap under_way q))) d.sent) [
        | inl g ↦ inl g
        | inr g ↦ elim (step-Advances e s.phase s.loop s refl).stays [
          | inl p ↦ inl (hushed-Deal e s p (d.hushed p))
          | inr h ↦ inr (h g)
        ]
      ]

step-Deal : (e : Event) (s : Session) → Deal s → Deal (step e s.phase s.loop s)
step-Deal e s d =
    let a = step-Advances e s.phase s.loop s refl in
    record {
      hushed = λ p. hushed-Deal e s (a.back p) (d.hushed (a.back p));
      offered = λ p. a.offered p d.offered;
      taken = λ p. a.taken p d.offered d.taken;
      sent = sent-Deal e s d;
    }

run-Deal : (es : List Event) (s : Session) → Deal s → Deal (run es s)
unfolding run
run-Deal [] s d = d
run-Deal (e ∷ es) s d = run-Deal es (step e s.phase s.loop s) (step-Deal e s d)

-- Whatever happens to a sending session, in whatever order, a message with the file's key is taken for the
-- exchange only if the receiver's invitation and the manifest are known, the file is no larger than the
-- invitation allows, and the receiver's acceptance has been read.
pub key_after_accept :
    (es : List Event)
    → let s = run es Sending.fresh in NoKey s.link ⊎ (has_agreed s.max s.size s.offer_sdp ≡ true)
key_after_accept es = (run-Deal es Sending.fresh (ground arith)).sent
