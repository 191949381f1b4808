-- ===== src/GetPage/Laws.antt =====
-- What a whole run of the receiving page (src/get/state.ts) shows.
use wildbloom.Prelude.{
  ◌≡◌, ◌≢◌, refl, ◌∙◌, Bool, true, false, ◌||◌, List, [], ◌∷◌, ◌⊎◌, inl, inr, All, Any, Bool-cases,
  arith,
}
use wildbloom.GetPage.{
  View, Event, by_connect, by_download, reduce, run, initial, is_at, unsupported,
}
use wildbloom.GetPage.Event.{answer_yes, checking}

-- The screens that are shown only after the person said that the words match.
abbrev pub is_trusted : View → Bool
is_trusted s =
    is_at 1 s
    || is_at 14 s
    || is_at 15 s
    || is_at 16 s
    || is_at 17 s
    || is_at 18 s
    || is_at 19 s
    || is_at 20 s
    || is_at 21 s
    || is_at 22 s
    || is_at 23 s

reduce-is_trusted :
    (s : View) (e : Event)
    → is_trusted (reduce s e) ≡ true
    → (is_trusted s ≡ true) ⊎ (e ≡ answer_yes)
unfolding reduce
reduce-is_trusted s e p = ground arith

-- The screens that follow once the file was opened and checked.
abbrev pub is_opened : View → Bool
is_opened s = is_at 17 s || is_at 18 s || is_at 23 s

reduce-is_opened :
    (s : View) (e : Event) → is_opened (reduce s e) ≡ true → (is_opened s ≡ true) ⊎ (e ≡ checking)
unfolding reduce
reduce-is_opened s e p = ground arith

-- A run that begins outside some screens reaches them only through the event that leads there.
run-earns :
    (P : View → Bool) (key : Event)
    → ((s : View) (e : Event) → P (reduce s e) ≡ true → (P s ≡ true) ⊎ (e ≡ key))
    → (s : View) (es : List Event) → P s ≡ false
    → P (run s es) ≡ true
    → Any (λ e. e ≡ key) es
unfolding run
run-earns P key k s [] f t = ground arith
run-earns P key k s (e ∷ es) f t = elim (Bool-cases (P (reduce s e))) [
  | inl p ↦ inl (elim (k s e p) [ inl q ↦ ground arith | inr q ↦ q ])
  | inr p ↦ inr (run-earns P key k (reduce s e) es p t)
]

-- The page asks for the file's details, and offers, fetches and saves the file, only if the person
-- said that the check words match.
pub download_trusted :
    (s : View) (es : List Event)
    → is_trusted s ≡ false
    → is_trusted (run s es) ≡ true
    → Any (λ e. e ≡ answer_yes) es
download_trusted = run-earns is_trusted answer_yes reduce-is_trusted

-- The page says that the file is saved, or could not be, only after it has come to check the file.
pub saved_checked :
    (s : View) (es : List Event)
    → is_opened s ≡ false
    → is_opened (run s es) ≡ true
    → Any (λ e. e ≡ checking) es
saved_checked = run-earns is_opened checking reduce-is_opened

-- What the retry of a screen has to repeat.
abbrev pub RetryFits : View → Type 0
RetryFits s =
    (is_at 10 s ≡ true → s.retry ≡ by_connect)
    × ((is_at 16 s || is_at 17 s || is_at 19 s || is_at 20 s || is_at 21 s) ≡ true
        → s.retry ≡ by_download)

reduce-RetryFits : (s : View) (e : Event) → RetryFits s → RetryFits (reduce s e)
unfolding reduce
reduce-RetryFits s e p = ground arith

run-RetryFits : (s : View) (es : List Event) → RetryFits s → RetryFits (run s es)
unfolding run
run-RetryFits s [] p = p
run-RetryFits s (e ∷ es) p = run-RetryFits (reduce s e) es (reduce-RetryFits s e p)

-- Whatever happened, Try again repeats the connection on the screen of a failed one, and the
-- download on those of a download under way or failed.
pub retry_fits : (es : List Event) → RetryFits (run initial es)
retry_fits es = run-RetryFits initial es (ground arith)

abbrev pub is_ending : View → Bool
is_ending s =
    is_at 0 s
    || is_at 1 s
    || is_at 2 s
    || is_at 3 s
    || is_at 4 s
    || is_at 8 s
    || is_at 9 s
    || is_at 13 s
    || is_at 20 s
    || is_at 22 s

reduce-is_ending :
    (s : View) (e : Event)
    → is_ending s ≡ true
    → ((reduce s e).screen ≡ s.screen) ⊎ (e ≡ unsupported)
unfolding reduce
reduce-is_ending s e p = ground arith

-- On an ending screen every event but `unsupported` leaves the page there.
pub ending_stays :
    (s : View) (es : List Event)
    → is_ending s ≡ true
    → All (λ e. e ≢ unsupported) es
    → (run s es).screen ≡ s.screen
unfolding run
ending_stays s [] p q = refl
ending_stays s (e ∷ es) p (n, q) = elim (reduce-is_ending s e p) [
  | inl k ↦ ending_stays (reduce s e) es (ground arith) q ∙ k
  | inr u ↦ absurd (n u)
]
