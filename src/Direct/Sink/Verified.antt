-- ===== src/Direct/Sink/Verified.antt =====
-- What a memory sink's file is (createMemorySink of src/direct/sink.ts).
use wildbloom.Prelude.{
  ℕ, ◌+◌, ◌≡◌, refl, sym, ap, ap₂, ◌∙◌, subst, true, ◌&&◌, List, [], ◌∷◌, Option, none, some, ltb,
  ◌==◌, length, length-append, All, arith, ==_iff, Bool-cases, inl, inr,
}
use wildbloom.Direct.Sink.{
  File, Options, Opening, Sink, fresh, refuse, same, write, begin_end, is_named, abort, Event,
  writes, ends, opens, aborts, check_opened, finish_end, step, run,
}

injective : {A : Type 0} {a b : A} → some a ≡ some b → a ≡ b
injective {a = a} p = ap (λ o. elim o [ none ↦ a | some x ↦ x ]) p

same-eq : (xs ys : List ℕ) → same xs ys ≡ true → xs ≡ ys
same-eq [] [] p = refl
same-eq [] (y ∷ ys) p = ground arith
same-eq (x ∷ xs) [] p = ground arith
same-eq (x ∷ xs) (y ∷ ys) p =
    let h = same-eq xs ys (ground arith) in
    let k : x ≡ y = ground arith in ap₂ {C = List ℕ} (λ z zs. z ∷ zs) k h

pub same_refl : (xs : List ℕ) → same xs xs ≡ true
same_refl [] = refl
same_refl (x ∷ xs) = let h = same_refl xs in ground arith

-- An END that the property allows.
abbrev pub EndFits : (List ℕ → ℕ → Type 0) → Event → Type 0
EndFits P (writes bytes) = Unit {0}
EndFits P (ends sha256 size) = P sha256 size
EndFits P opens = Unit {0}
EndFits P aborts = Unit {0}

module _ (decrypt : List ℕ → Option File) (hash : List ℕ → List ℕ) where
  -- The file is what a whole envelope opens to, and is the one that the manifest names.
  abbrev pub IsVerified : Options → File → Type 0
  IsVerified o f =
      (envelope : List ℕ) × (length envelope ≡ o.envelope_bytes)
      × (decrypt envelope ≡ some f)
      × (f.name ≡ o.name)
      × (f.media_type ≡ o.media_type)
      × (length f.bytes ≡ o.size)

  record Fits (P : List ℕ → ℕ → Type 0) (o : Options) (s : Sink) : Type 0 where
    fixed : s.options ≡ o
    counted : (p : List ℕ) → s.parts ≡ some p → length p ≡ s.held
    whole :
        (q : Opening)
        → s.opening ≡ some q
        → (length q.envelope ≡ o.envelope_bytes) × P q.sha256 q.size
    verified : (f : File) → s.file ≡ some f → IsVerified o f × P (hash f.bytes) (length f.bytes)

  refuse-Fits :
      (P : List ℕ → ℕ → Type 0) (o : Options) (s : Sink) → Fits P o s → Fits P o (refuse s)
  refuse-Fits P o s v = record {
    fixed = v.fixed;
    counted = v.counted;
    whole = v.whole;
    verified = v.verified;
  }

  write-Fits :
      (P : List ℕ → ℕ → Type 0) (o : Options) (b : List ℕ) (p : Option (List ℕ)) (s : Sink)
      → p ≡ s.parts
      → Fits P o s
      → Fits P o (write b p s)
  unfolding write
  write-Fits P o b none s e v = refuse-Fits P o s v
  write-Fits P o b (some parts) s e v =
      elim (Bool-cases (ltb s.options.envelope_bytes (s.held + length b))) [
        | inl t ↦ simp t (refuse-Fits P o s v)
        | inr t ↦ simp t (record {
          fixed = v.fixed;
          counted = λ p q.
              subst (λ x. length x ≡ s.held + length b) (injective q)
                (omega (arith, length-append parts b, v.counted parts (sym e)));
          whole = v.whole;
          verified = v.verified;
        })
      ]

  begin_end-Fits :
      (P : List ℕ → ℕ → Type 0) (o : Options) (h : List ℕ) (n : ℕ) (p : Option (List ℕ)) (s : Sink)
      → P h n
      → p ≡ s.parts
      → Fits P o s
      → Fits P o (begin_end h n p s)
  unfolding begin_end
  begin_end-Fits P o h n none s a e v = refuse-Fits P o s v
  begin_end-Fits P o h n (some parts) s a e v =
      elim (Bool-cases (s.held == s.options.envelope_bytes)) [
        | inl t ↦ simp t (record {
          fixed = v.fixed;
          counted = λ p q. ground arith;
          whole = λ q r.
              subst (λ x. (length x.envelope ≡ o.envelope_bytes) × P x.sha256 x.size) (injective r)
                (
                  v.counted parts (sym e)
                      ∙ (==_iff s.held s.options.envelope_bytes).0 t
                      ∙ ap (λ x. x.envelope_bytes) v.fixed,
                  a,
                );
          verified = v.verified;
        })
        | inr t ↦ simp t (refuse-Fits P o s v)
      ]

  -- What `end` sets `file` to has passed every check.
  check_opened-Fits :
      (P : List ℕ → ℕ → Type 0) (o : Options) (d : Option File) (q : Opening) (s : Sink)
      → decrypt q.envelope ≡ d
      → length q.envelope ≡ o.envelope_bytes
      → P q.sha256 q.size
      → Fits P o s
      → Fits P o (check_opened decrypt hash d q s)
  unfolding check_opened
  check_opened-Fits P o none q s t l a v = refuse-Fits P o s v
  check_opened-Fits P o (some f) q s t l a v =
      elim (Bool-cases
        (is_named s.options f && (length f.bytes == q.size) && same (hash f.bytes) q.sha256)) [
          | inr c ↦ simp c (refuse-Fits P o s v)
          | inl c ↦
              let named : same f.name s.options.name ≡ true = ground arith in
              let typed : same f.media_type s.options.media_type ≡ true = ground arith in
              let sized : length f.bytes ≡ s.options.size = ground arith in
              let ended : length f.bytes ≡ q.size = ground arith in
              let hashed : same (hash f.bytes) q.sha256 ≡ true = ground arith in
              simp c (record {
                fixed = v.fixed;
                counted = v.counted;
                whole = v.whole;
                verified = λ g r.
                    subst (λ x. IsVerified o x × P (hash x.bytes) (length x.bytes)) (injective r)
                      (
                        (
                          q.envelope,
                          l,
                          t,
                          same-eq f.name s.options.name named ∙ ap (λ x. x.name) v.fixed,
                          same-eq f.media_type s.options.media_type typed
                              ∙ ap (λ x. x.media_type) v.fixed,
                          sized ∙ ap (λ x. x.size) v.fixed,
                        ),
                        subst (λ n. P (hash f.bytes) n) (sym ended)
                            (subst (λ h. P h q.size) (sym (same-eq (hash f.bytes) q.sha256 hashed))
                              a),
                      );
              })
        ]

  finish_end-Fits :
      (P : List ℕ → ℕ → Type 0) (o : Options) (q : Option Opening) (s : Sink)
      → q ≡ s.opening
      → Fits P o s
      → Fits P o (finish_end decrypt hash q s)
  unfolding finish_end
  finish_end-Fits P o none s e v = v
  finish_end-Fits P o (some q) s e v =
      let w = v.whole q (sym e) in
      check_opened-Fits P o (decrypt q.envelope) q (record s { opening = none }) refl w.0 w.1
        (record {
          fixed = v.fixed;
          counted = v.counted;
          whole = λ q' r. ground arith;
          verified = v.verified;
        })

  abort-Fits : (P : List ℕ → ℕ → Type 0) (o : Options) (s : Sink) → Fits P o s → Fits P o (abort s)
  unfolding abort
  abort-Fits P o s v = record {
    fixed = v.fixed;
    counted = λ p r. ground arith;
    whole = v.whole;
    verified = λ f r. ground arith;
  }

  step-Fits :
      (P : List ℕ → ℕ → Type 0) (o : Options) (e : Event) (s : Sink)
      → EndFits P e
      → Fits P o s
      → Fits P o (step decrypt hash e s)
  unfolding step
  step-Fits P o (writes b) s a v = write-Fits P o b s.parts s refl v
  step-Fits P o (ends h n) s a v = begin_end-Fits P o h n s.parts s a refl v
  step-Fits P o opens s a v = finish_end-Fits P o s.opening s refl v
  step-Fits P o aborts s a v = abort-Fits P o s v

  run-Fits :
      (P : List ℕ → ℕ → Type 0) (o : Options) (es : List Event) (s : Sink)
      → All (EndFits P) es
      → Fits P o s
      → Fits P o (run decrypt hash es s)
  unfolding run
  run-Fits P o [] s a v = v
  run-Fits P o (e ∷ es) s (a, as_rest) v =
      run-Fits P o es (step decrypt hash e s) as_rest (step-Fits P o e s a v)

  -- However writes, ENDs, openings and aborts are mixed, a file that the sink offers is what an envelope of the
  -- full length opened to, has the name, the type and the size of the manifest, and its hash and
  -- size are what some END named: they have every property that all the ENDs have.
  pub sink-IsVerified :
      (P : List ℕ → ℕ → Type 0) (o : Options) (es : List Event) (f : File)
      → All (EndFits P) es
      → (run decrypt hash es (fresh o)).file ≡ some f
      → IsVerified o f × P (hash f.bytes) (length f.bytes)
  sink-IsVerified P o es f a h =
      (run-Fits P o es (fresh o) a (record {
        fixed = refl;
        counted = λ p r. subst (λ x. length x ≡ 0) (injective r) refl;
        whole = λ q r. ground arith;
        verified = λ g r. ground arith;
      })).verified
        f h
