-- ===== src/SendPage/Tests.antt =====
-- The page's theorems on a run of the sender page (src/send/state.ts).
use wildbloom.Prelude.{◌≡◌, refl, true, false, List, [], ◌∷◌, Any, arith, ◌++◌}
use wildbloom.SendPage.{View, Event, reduce, run, initial, screen_text, ok}
use wildbloom.SendPage.Event.{
  start, continue, slow, paired, answer_yes, invitation, set_hide, got_asking, got_linking,
  got_sending, got_end_sent, got_sent, got_no_relay, cancel,
}
use wildbloom.SendPage.Screen.{no_relay, connect_failed, connect_failed_direct}
use wildbloom.SendPage.History.{words_cleared, late_text, trust_earned, sent_earned}

abbrev session : List Event
session =
    start ok
    ∷ continue
    ∷ slow
    ∷ paired "sun oak fox"
    ∷ answer_yes
    ∷ invitation 9000 false true
    ∷ set_hide true
    ∷ got_asking "a.txt" 12
    ∷ got_linking
    ∷ got_sending 400
    ∷ got_end_sent
    ∷ []

words_cleared_example : (run initial session).check_words ≡ ""
unfolding run reduce
words_cleared_example = words_cleared session refl

late_text_example :
    Any
      (λ at. (run initial (session ++ (got_no_relay ∷ []))).screen ≡ at)
      (no_relay ∷ connect_failed ∷ connect_failed_direct ∷ [])
unfolding run reduce screen_text
late_text_example = late_text (session ++ (got_no_relay ∷ [])) refl refl

trust_earned_example : Any (λ e. e ≡ answer_yes) session
unfolding run reduce
trust_earned_example = trust_earned initial session refl refl

abbrev stopped : View
stopped = run initial (session ++ (cancel ∷ []))

sent_earned_example : Any (λ e. e ≡ got_sent) (session ++ (got_sent ∷ []))
unfolding run reduce
sent_earned_example = sent_earned initial (session ++ (got_sent ∷ [])) (ground arith) refl
