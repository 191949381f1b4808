-- ===== src/Direct/Session/SenderEnd/Agreement.antt =====
-- How the two ends come to agree on a file (class SenderSession of src/direct/session.ts).
use wildbloom.Prelude.{
  ℕ, ◌≡◌, refl, Bool, true, false, ◌++◌, Option, none, some, arith, Bool-cases, inl, inr, ◌⊎◌, ◌&&◌,
  ◌==◌, leb, is_some, All,
}
use wildbloom.Prelude.Text.{Text}
use wildbloom.Direct.Transfer.{TransferFailure}
use wildbloom.Direct.Messages.{
  DirectMessage, StopReason, invite, manifest, accept, decline, answer, restart, restart_answer,
  failed_reason,
}
use wildbloom.Direct.Messages
use wildbloom.Direct.Session.Failures.{DirectFailure, failure_for_peer_stop}
use wildbloom.Direct.Session.Failures
use wildbloom.Direct.Session.Link
use wildbloom.Direct.Session.Watch
use wildbloom.Direct.Session.Sending
use wildbloom.Direct.Session.Sending.{
  Incoming, came, refused, broke, Session, Phase, Loop, close, throw, leave, given_up, give_up,
  fail, no_more_restarts, watched, heard, received, send_refusal, read_failure,
}
use wildbloom.Direct.Session.Link.Taken.{
  send-Taken, send_stop-Taken, read-Taken, end_link-Taken, hand_over-Taken, settle-Taken,
}
use wildbloom.Direct.Session.Sending.Order.{Kept}
use wildbloom.Direct.Session.SenderEnd.{
  on_invite, send_or, on_offer, on_offer_reply, end_loop, on_read_failure, is_grave,
  on_restart_message, misplaced, on_stop_told, Outcome, good, bad, reply_or, on_restart_answer,
  on_restart_told, on_answer, on_encoded, on_transferred, on_stop,
}

-- The message with the key.
abbrev pub is_key : DirectMessage → Bool
is_key (answer key sdp) = true
is_key _ = false

abbrev pub has_key : Link.Message → Bool
has_key (Link.stop reason) = false
has_key (Link.body m) = is_key m

abbrev pub Keyless : Link.Message → Type 0
Keyless m = has_key m ≡ false

-- No message that was taken has the key.
abbrev pub NoKey : Link.Link → Type 0
NoKey l = All Keyless (l.handed ++ l.waiting)

-- Either no key was taken, or there is a reason that it may be.
pub NoKey-Kept : (A : Type 0) → Kept (λ m. (is_key m ≡ false) ⊎ A) (λ l. NoKey l ⊎ A)
NoKey-Kept A = record {
  sent = λ m l q h. both m l q h;
  stopped = λ r l h. mapped (send_stop-Taken Keyless (λ r. refl) r l) h;
  heard_it = λ d l h. mapped (read-Taken Keyless (λ r. refl) d l) h;
  ended = λ l h. mapped (end_link-Taken Keyless (λ r. refl) l) h;
  turned = λ l h. mapped (hand_over-Taken Keyless (λ r. refl) l) h;
  settled = λ l h. mapped (settle-Taken Keyless (λ r. refl) l.busy l) h;
}
  where
    mapped : {X Y : Type 0} → (X → Y) → X ⊎ A → Y ⊎ A
    mapped f (inl x) = inl (f x)
    mapped f (inr a) = inr a

    both :
        (m : DirectMessage) (l : Link.Link)
        → (is_key m ≡ false) ⊎ A
        → NoKey l ⊎ A
        → NoKey (Link.send (Link.body m) l) ⊎ A
    both m l (inl q) (inl h) = inl (send-Taken Keyless (λ r. refl) m l q h)
    both m l (inr a) h = inr a
    both m l q (inr a) = inr a

-- The file is no larger than the invitation allows.
abbrev pub fits : Option ℕ → Option ℕ → Bool
fits (some max) (some size) = leb size max
fits _ _ = false

-- What the two ends have agreed: the receiver has accepted a file that is no larger than its invitation
-- allows.
abbrev pub has_agreed : Option ℕ → Option ℕ → Option Text → Bool
has_agreed max size sdp = fits max size && is_some sdp

abbrev pub agreed : Session → Bool
agreed s = has_agreed s.max s.size s.offer_sdp

-- Before the receiver has accepted, while the offer is out, and after.
abbrev pub early : Phase → Bool
early Sending.starting = true
early Sending.invited = true
early Sending.offering = true
early Sending.awaiting = true
early _ = false

abbrev pub out : Phase → Bool
out Sending.offering = true
out Sending.awaiting = true
out _ = false

abbrev pub under_way : Phase → Bool
under_way Sending.accepted = true
under_way Sending.encoding = true
under_way Sending.answering = true
under_way _ = false

-- What holds of a session between any two events.
pub record Deal (s : Session) : Type 0 where
  pub hushed : early s.phase ≡ true → NoKey s.link
  pub offered : out s.phase ≡ true → fits s.max s.size ≡ true
  pub taken : under_way s.phase ≡ true → agreed s ≡ true
  pub sent : NoKey s.link ⊎ (agreed s ≡ true)

-- How a step changes the agreement.
pub record Advances (phase : Phase) (max size : Option ℕ) (sdp : Option Text) (s : Session)
    : Type 0 where
  pub back : early s.phase ≡ true → early phase ≡ true
  pub offered :
      out s.phase ≡ true → (out phase ≡ true → fits max size ≡ true) → fits s.max s.size ≡ true
  pub taken :
      under_way s.phase ≡ true
      → (out phase ≡ true → fits max size ≡ true)
      → (under_way phase ≡ true → has_agreed max size sdp ≡ true)
      → agreed s ≡ true
  pub stays : (early phase ≡ true) ⊎ (has_agreed max size sdp ≡ true → agreed s ≡ true)

abbrev pub From : Session → Session → Type 0
From s t = Advances s.phase s.max s.size s.offer_sdp t

pub same-Advances : (s : Session) → From s s
same-Advances s = ground arith

pub throw-Advances : (d : DirectFailure) (s : Session) → From s (throw d s)
unfolding throw
throw-Advances d s = ground arith

pub leave-Advances : (d : DirectFailure) (s : Session) → From s (leave d s)
unfolding leave
leave-Advances d s = ground arith

pub fail-Advances : (d : DirectFailure) (s : Session) → From s (fail d s)
unfolding fail give_up given_up close
fail-Advances d s = ground arith

pub no_more_restarts-Advances : (s : Session) → From s (no_more_restarts s)
unfolding no_more_restarts give_up given_up close
no_more_restarts-Advances s = ground arith

pub watched-Advances : (w : Watch.Watch) (s : Session) → From s (watched w s)
unfolding watched given_up close
watched-Advances w s = ground arith

pub on_invite-Advances :
    (inc : Incoming) (s : Session)
    → Advances Sending.starting s.max s.size s.offer_sdp (on_invite inc s)
unfolding on_invite throw
on_invite-Advances (came m) s = ground arith
on_invite-Advances (refused r) s = ground arith
on_invite-Advances (broke d) s = ground arith

pub on_offer-Advances :
    (name : Text) (size : ℕ) (type : Text) (max : Option ℕ) (s : Session)
    → s.max ≡ max
    → s.phase ≡ Sending.invited
    → From s (on_offer name size type max s)
unfolding on_offer send_or throw
on_offer-Advances name size type max s q p = ground arith

pub on_offer_reply-Advances :
    (inc : Incoming) (s : Session)
    → Advances Sending.awaiting s.max s.size s.offer_sdp (on_offer_reply inc s)
unfolding on_offer_reply throw
on_offer_reply-Advances (came m) s = ground arith
on_offer_reply-Advances (refused r) s = ground arith
on_offer_reply-Advances (broke d) s = ground arith

pub end_loop-Advances : (d : DirectFailure) (s : Session) → From s (end_loop d s)
unfolding end_loop
end_loop-Advances Failures.network s = no_more_restarts-Advances (record s { loop = Sending.over })
end_loop-Advances Failures.expired s = no_more_restarts-Advances (record s { loop = Sending.over })
end_loop-Advances d s = fail-Advances d (record s { loop = Sending.over })

pub on_read_failure-Advances : (d : DirectFailure) (s : Session) → From s (on_read_failure d s)
unfolding on_read_failure
on_read_failure-Advances d s = elim (Bool-cases (is_grave d)) [
  | inl t ↦ simp t (fail-Advances d (record s { loop = Sending.over }))
  | inr t ↦ simp t (no_more_restarts-Advances (record s { loop = Sending.over }))
]

pub misplaced-Advances : (s : Session) → From s (misplaced s)
unfolding misplaced
misplaced-Advances s = ground arith

pub on_stop_told-Advances : (s : Session) → From s (on_stop_told s)
unfolding on_stop_told
on_stop_told-Advances s = fail-Advances Failures.protocol (record s { loop = Sending.over })

pub on_restart_message-Advances :
    (index : ℕ) (inc : Incoming) (s : Session) → From s (on_restart_message index inc s)
unfolding on_restart_message
on_restart_message-Advances index (refused r) s = on_read_failure-Advances (read_failure r) s
on_restart_message-Advances index (broke d) s = on_read_failure-Advances d s
on_restart_message-Advances index (came (Messages.stop r)) s =
    fail-Advances (failure_for_peer_stop r) (record s { loop = Sending.over })
on_restart_message-Advances index (came (restart a)) s =
    elim (Bool-cases (index == s.link.sent_count)) [
      | inl t ↦ simp t (same-Advances (record s { loop = Sending.reply }))
      | inr t ↦ simp t (misplaced-Advances s)
    ]
on_restart_message-Advances index (came m) s = misplaced-Advances s

pub on_restart_answer-Advances : (o : Outcome Text) (s : Session) → From s (on_restart_answer o s)
unfolding on_restart_answer reply_or
on_restart_answer-Advances (bad d) s = end_loop-Advances d s
on_restart_answer-Advances (good sdp) s = reply (send_refusal s.link)
  where
    reply : (o : Option DirectFailure) → From s (reply_or o sdp s)
    reply none = ground arith
    reply (some d) = end_loop-Advances d s

pub on_restart_told-Advances : (o : Outcome (Unit {0})) (s : Session) → From s (on_restart_told o s)
unfolding on_restart_told
on_restart_told-Advances (bad d) s = end_loop-Advances d s
on_restart_told-Advances (good u) s = ground arith

pub on_answer-Advances : (o : Outcome (Text × Text)) (s : Session) → From s (on_answer o s)
unfolding on_answer send_or leave
on_answer-Advances (bad d) s = ground arith
on_answer-Advances (good (key, sdp)) s = ground arith

pub on_encoded-Advances :
    (o : Outcome (Unit {0})) (s : Session)
    → Advances Sending.encoding s.max s.size s.offer_sdp (on_encoded o s)
unfolding on_encoded leave
on_encoded-Advances o s = ground arith

pub on_transferred-Advances :
    (o : Option TransferFailure) (s : Session) → From s (on_transferred o s)
unfolding on_transferred leave
on_transferred-Advances o s = ground arith

pub on_stop-Advances : (b i : Bool) (s : Session) → From s (on_stop b i s)
unfolding on_stop close
on_stop-Advances b i s = ground arith
