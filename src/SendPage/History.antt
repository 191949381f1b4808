-- ===== src/SendPage/History.antt =====
-- What a whole run of the sender page (src/send/state.ts and src/send/screens.ts) shows.
use wildbloom.Prelude.{
  ◌≡◌, refl, true, false, List, [], ◌∷◌, ◌⊎◌, inl, inr, arith, Bool-cases, All, Any, ap, ◌∙◌, ◌≢◌,
}
use wildbloom.SendPage.{View, Event, Screen, reduce, run, initial, screen_text, says_nothing_kept}
use wildbloom.SendPage.Event.{answer_yes, got_unsupported, got_sent}
use wildbloom.SendPage.Screen.{sent, no_relay, connect_failed, connect_failed_direct}
use wildbloom.SendPage.Laws.{
  hides_soundly, reduce-hides_soundly, ends_soundly, reduce-ends_soundly, WordsSoundly,
  reduce-WordsSoundly, compares, is_trusted, reduce-is_trusted, is_ending, reduce-is_ending,
  reduce-sent,
}

-- What every event keeps, a run keeps.
run-keeps {κ} :
    (P : View → Type κ)
    → ((s : View) (e : Event) → P s → P (reduce s e))
    → (s : View) (es : List Event) → P s
    → P (run s es)
unfolding run
run-keeps P k s [] p = p
run-keeps P k s (e ∷ es) p = run-keeps P k (reduce s e) es (k s e p)

-- The page hides this phone's address only if the invitation offered a relay, whatever happened.
pub hidden_with_relay :
    (es : List Event) → (run initial es).hide ≡ true → (run initial es).relay_offered ≡ true
hidden_with_relay es h =
    let p = run-keeps (λ s. hides_soundly s ≡ true) reduce-hides_soundly initial es refl in
    ground arith

-- The check words are kept only while the two people compare them: on every screen but check, confirming
-- and unsupported they are empty.
pub words_cleared :
    (es : List Event) → compares (run initial es).screen ≡ false → (run initial es).check_words ≡ ""
words_cleared es = run-keeps WordsSoundly reduce-WordsSoundly initial es (λ _. refl)

-- Once the end of the file has been sent, no screen says that nothing was sent or kept, but for
-- those of a connection that was never made: no relay, and a failure to connect.
pub late_text :
    (es : List Event)
    → (run initial es).end_sent ≡ true
    → says_nothing_kept (screen_text (run initial es)) ≡ true
    → Any
        (λ at. (run initial es).screen ≡ at)
        (no_relay ∷ connect_failed ∷ connect_failed_direct ∷ [])
unfolding screen_text
late_text es h t =
    let p = run-keeps (λ s. ends_soundly s ≡ true) reduce-ends_soundly initial es refl in
    ground arith

-- From a screen before the answer, a run reaches a screen of the session with the receiver
-- only if the person said that the check words match.
pub trust_earned :
    (s : View) (es : List Event)
    → is_trusted s.screen ≡ false
    → is_trusted (run s es).screen ≡ true
    → Any (λ e. e ≡ answer_yes) es
unfolding run
trust_earned s [] f t = ground arith
trust_earned s (e ∷ es) f t = elim (Bool-cases (is_trusted (reduce s e).screen)) [
  | inl p ↦ inl (elim (reduce-is_trusted s e p) [ inl k ↦ ground arith | inr q ↦ q ])
  | inr p ↦ inr (trust_earned (reduce s e) es p t)
]

-- On an ending screen every event but `unsupported` leaves the page there.
pub ending_final :
    (s : View) (es : List Event)
    → is_ending s.screen ≡ true
    → All (λ e. e ≢ got_unsupported) es
    → (run s es).screen ≡ s.screen
unfolding run
ending_final s [] p q = refl
ending_final s (e ∷ es) p (n, q) = elim (reduce-is_ending s e p) [
  | inl k ↦ ending_final (reduce s e) es (ap is_ending k ∙ p) q ∙ k
  | inr u ↦ absurd (n u)
]

is_sent-cases : (at : Screen) → (at ≡ sent) ⊎ (at ≢ sent)
is_sent-cases at = ground arith

-- A run reaches the screen that says the file arrived only through the receiver's own word that it kept it.
pub sent_earned :
    (s : View) (es : List Event)
    → s.screen ≢ sent
    → (run s es).screen ≡ sent
    → Any (λ e. e ≡ got_sent) es
unfolding run
sent_earned s [] f t = absurd (f t)
sent_earned s (e ∷ es) f t = elim (is_sent-cases (reduce s e).screen) [
  | inl p ↦ inl (elim (reduce-sent s e p) [ inl k ↦ absurd (f k) | inr q ↦ q.0 ])
  | inr p ↦ inr (sent_earned (reduce s e) es p t)
]
