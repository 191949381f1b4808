-- ===== src/Direct/Sink/Opens.antt =====
-- The branches of the memory sink for a whole envelope that fits (createMemorySink of src/direct/sink.ts).
use wildbloom.Prelude.{
  ℕ, ◌+◌, ◌≤◌, ◌≡◌, refl, subst, true, false, List, ◌++◌, Option, none, some, ltb, ◌==◌, length,
  arith,
}
use wildbloom.Direct.Sink.{File, Options, Opening, Sink, same, write, begin_end, check_opened}
use wildbloom.Direct.Sink.Verified.{same_refl}

pub write-fits :
    (b parts : List ℕ) (s : Sink)
    → s.held + length b ≤ s.options.envelope_bytes
    → write b (some parts) s ≡ record s { parts = some (parts ++ b); held = s.held + length b }
unfolding write
write-fits b parts s l =
    let t : ltb s.options.envelope_bytes (s.held + length b) ≡ false = ground arith in simp t refl

pub begin_end-whole :
    (h parts : List ℕ) (n : ℕ) (s : Sink)
    → s.held ≡ s.options.envelope_bytes
    → begin_end h n (some parts) s ≡ record s {
      parts = none;
      opening = some (record { envelope = parts; sha256 = h; size = n });
    }
unfolding begin_end
begin_end-whole h parts n s l =
    let t : (s.held == s.options.envelope_bytes) ≡ true = ground arith in simp t refl

-- A sink that holds these bytes and nothing else yet.
abbrev pub holding : Options → List ℕ → Sink
holding o p = record {
  options = o;
  parts = some p;
  held = length p;
  opening = none;
  file = none;
  refusals = 0;
}

module _ (decrypt : List ℕ → Option File) (hash : List ℕ → List ℕ) where
  pub check_opened-good :
      (f : File) (q : Opening) (s : Sink)
      → f.name ≡ s.options.name
      → f.media_type ≡ s.options.media_type
      → length f.bytes ≡ s.options.size
      → length f.bytes ≡ q.size
      → hash f.bytes ≡ q.sha256
      → check_opened decrypt hash (some f) q s ≡ record s { file = some f }
  unfolding check_opened
  check_opened-good f q s a b c d e =
      let n = subst (λ x. same f.name x ≡ true) a (same_refl f.name) in
      let m = subst (λ x. same f.media_type x ≡ true) b (same_refl f.media_type) in
      let h = subst (λ x. same (hash f.bytes) x ≡ true) e (same_refl (hash f.bytes)) in ground arith
