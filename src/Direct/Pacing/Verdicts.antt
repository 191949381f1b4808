-- ===== src/Direct/Pacing/Verdicts.antt =====
-- What a combination of pacing rules allows.
use wildbloom.Prelude.{
  ℕ, ◌≤◌, ◌≡◌, ◌≢◌, ◌↔◌, refl, Bool, true, false, List, [], ◌∷◌, Option, none, some, arith, All,
  Bool-cases, inl, inr,
}
use wildbloom.Direct.Pacing.{
  PacingState, Verdict, protocol_pacing, min_bytes, is_nothing, sooner, stricter_loop, stricter,
  rate_pacing, PathPacing, path_pacing, relayed_verdict, is_direct,
}

-- At most as many bytes, where `none` is infinity.
abbrev pub AtMost : Option ℕ → Option ℕ → Type 0
AtMost n none = Unit
AtMost none (some b) = ⊥
AtMost (some a) (some b) = a ≤ b

AtMost-min_bytes : (n a b : Option ℕ) → AtMost n (min_bytes a b) ↔ (AtMost n a × AtMost n b)
AtMost-min_bytes n none b = (λ h. (tt, h), λ h. h.1)
AtMost-min_bytes n (some a) none = (λ h. (h, tt), λ h. h.0)
AtMost-min_bytes none (some a) (some b) = (λ h. absurd h, λ h. h.0)
AtMost-min_bytes (some n) (some a) (some b) = (λ h. (omega arith, omega arith), λ h. omega arith)

-- Nothing and what is given back for it are the same bound.
AtMost-nothing : (n bytes : Option ℕ) → is_nothing bytes ≡ true → AtMost n (some 0) ↔ AtMost n bytes
AtMost-nothing n none h = cc h
AtMost-nothing none (some b) h = (λ k. k, λ k. k)
AtMost-nothing (some a) (some b) h = (λ k. ground arith, λ k. ground arith)

loop-AtMost :
    (n bytes retry : Option ℕ) (vs : List Verdict)
    → AtMost n (stricter_loop bytes retry vs).bytes
      ↔ (AtMost n bytes × All (λ v. AtMost n v.bytes) vs)
unfolding stricter_loop
loop-AtMost n bytes retry [] = elim (Bool-cases (is_nothing bytes)) [
  | inl p ↦ let e = AtMost-nothing n bytes p in simp p (λ h. (e.0 h, tt), λ h. e.1 h.0)
  | inr p ↦ simp p (λ h. (h, tt), λ h. h.0)
]
loop-AtMost n bytes retry (v ∷ vs) =
    let ih = loop-AtMost n (min_bytes bytes v.bytes) (sooner retry v) vs in
    let m = AtMost-min_bytes n bytes v.bytes in
    (
      λ h. ((m.0 (ih.0 h).0).0, ((m.0 (ih.0 h).0).1, (ih.0 h).1)),
      λ h. ih.1 (m.1 (h.0, h.1.0), h.1.1),
    )

-- A combination of rules allows exactly what every one of them allows: a number of bytes is within
-- its verdict if and only if it is within the verdict of each rule.
pub stricter_iff :
    (n : Option ℕ) (vs : List Verdict)
    → AtMost n (stricter vs).bytes ↔ All (λ v. AtMost n v.bytes) vs
unfolding stricter
stricter_iff n vs = let e = loop-AtMost n none none vs in (λ h. (e.0 h).1, λ h. e.1 (tt, h))

AtMost-refl : (n : Option ℕ) → AtMost n n
AtMost-refl none = tt
AtMost-refl (some n) = omega arith

relayed_verdict-bytes :
    (known : Option Bool) (v : Verdict) → AtMost (relayed_verdict known v).bytes v.bytes
unfolding relayed_verdict
relayed_verdict-bytes (some b) v = AtMost-refl v.bytes
relayed_verdict-bytes none v = elim (Bool-cases (is_nothing v.bytes)) [
  | inl p ↦ simp p ((AtMost-nothing (some 0) v.bytes p).0 (omega arith))
  | inr p ↦ simp p (AtMost-refl v.bytes)
]

AtMost-trans : (a b c : Option ℕ) → AtMost a b → AtMost b c → AtMost a c
AtMost-trans a b none h k = tt
AtMost-trans a none (some c) h k = absurd k
AtMost-trans none (some b) (some c) h k = absurd h
AtMost-trans (some a) (some b) (some c) h k = omega arith

not_direct : (r : Option Bool) → r ≢ some false → is_direct r ≡ false
not_direct none h = refl
not_direct (some true) h = refl
not_direct (some false) h = absurd (h refl)

-- Unless the pair is known to be direct, a send on a path is held to the protocol's window and to the
-- relay's rate, both.
pub path_ceiling :
    (time : ℕ) (s : PacingState) (p : PathPacing)
    → p.relayed ≢ some false
    → let v = (path_pacing time s p).1 in
      AtMost v.bytes (protocol_pacing s).bytes
      × AtMost v.bytes (rate_pacing time s p.bucket).1.bytes
unfolding path_pacing
path_ceiling time s p h =
    let vs = protocol_pacing s ∷ (rate_pacing time s p.bucket).1 ∷ [] in
    let a = (stricter_iff (stricter vs).bytes vs).0 (AtMost-refl (stricter vs).bytes) in
    let b = relayed_verdict-bytes p.relayed (stricter vs) in
    simp (not_direct p.relayed h) (AtMost-trans _ _ _ b a.0, AtMost-trans _ _ _ b a.1.0)
