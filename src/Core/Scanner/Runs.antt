-- ===== src/Core/Scanner/Runs.antt =====
-- What the scanner reports.
use git_agentic.Common.{
  ℕ, ◌+◌, ◌-◌, ◌≤◌, ◌≡◌, refl, Bool, true, false, Bool-cases, all-append, Option, none, some, List,
  [], ◌∷◌, ◌++◌, length, take, drop, ltb, All, all, All-append, filter, filter-append,
  if◌then◌else◌, arith, ap, sym, ◌∙◌, length-append, take-append, drop-append, ◌⊎◌, inl, inr,
}
use mathlib.Core.List.{append_assoc}
use mathlib.Core.Path.{ap₂}
use git_agentic.Common.Text.{Bytes, Text}
use git_agentic.Core.Scanner.{
  ScanPolicy, Hit, high_entropy, TokenPattern, Engine, is_base64ish, min_run_length,
  is_high_entropy, maybe_emit_entropy_hit, close_run, or_start, entropy_hits, hits_of, pattern_hits,
  patterns, scan_impl, scan_with, is_pattern,
}

-- `run` stands in the text with no base64-like byte beside it.
abbrev pub Ends : Bytes → Type 0
Ends [] = Unit {0}
Ends (b ∷ post) = is_base64ish b ≡ false

abbrev pub Begins : Bytes → Type 0
Begins pre =
    (pre ≡ []) ⊎ ((front : Bytes) × (b : ℕ) × (pre ≡ front ++ (b ∷ [])) × (is_base64ish b ≡ false))

module _ (x : Engine) (bytes : Bytes) where
  -- A hit is a whole run of 20 bytes or more whose entropy is over the threshold.
  pub record IsRun (h : Hit) : Type 0 where
    pub pre : Bytes
    pub run : Bytes
    pub post : Bytes
    pub whole : bytes ≡ pre ++ (run ++ post)
    pub at : h.offset ≡ length pre
    pub long : h.length ≡ length run
    pub enough : min_run_length ≤ length run
    pub inside : all is_base64ish run ≡ true
    pub before : Begins pre
    pub after : Ends post
    pub high : is_high_entropy x run ≡ true
    pub named : h.kind ≡ high_entropy

  emitted :
      (pre run post : Bytes)
      → bytes ≡ pre ++ (run ++ post)
      → maybe_emit_entropy_hit x bytes (length pre) (length pre + length run) ≡ (
          if ltb (length run) min_run_length
          then []
          else if is_high_entropy x run
          then record { kind = high_entropy; offset = length pre; length = length run } ∷ []
          else [])
  unfolding maybe_emit_entropy_hit
  emitted pre run post e =
      let len : length pre + length run - length pre ≡ length run = omega arith in
      let slice : take (length run) (drop (length pre) bytes) ≡ run =
        ap (λ (t : Bytes). take (length run) (drop (length pre) t)) e
        ∙ ap (take (length run)) (drop-append pre (run ++ post))
        ∙ take-append run post in
      rw (len, slice)

  emit-IsRun :
      (pre run post : Bytes)
      → bytes ≡ pre ++ (run ++ post)
      → all is_base64ish run ≡ true
      → Begins pre
      → Ends post
      → All IsRun (maybe_emit_entropy_hit x bytes (length pre) (length pre + length run))
  emit-IsRun pre run post e inside b a =
      rw (emitted pre run post e) (elim (Bool-cases (ltb (length run) min_run_length)) [
        | inl short ↦ rw short tt
        | inr long ↦ rw long (elim (Bool-cases (is_high_entropy x run)) [
          | inr low ↦ rw low tt
          | inl high ↦ rw high (
            record {
              pre = pre;
              run = run;
              post = post;
              whole = e;
              at = refl;
              long = refl;
              enough = ground arith;
              inside = inside;
              before = b;
              after = a;
              high = high;
              named = refl;
            },
            tt,
          )
        ])
      ])

  abbrev Started : Option ℕ → Bytes → Bytes → Type 0
  Started none pre run = run ≡ []
  Started (some start) pre run = start ≡ length pre

  close_run-IsRun :
      (st : Option ℕ) (pre run post : Bytes) (i : ℕ)
      → bytes ≡ pre ++ (run ++ post)
      → i ≡ length pre + length run
      → Started st pre run
      → all is_base64ish run ≡ true
      → Begins pre
      → Ends post
      → All IsRun (close_run x bytes st i)
  close_run-IsRun none pre run post i e ei s inside b a = tt
  close_run-IsRun (some start) pre run post i e ei s inside b a =
      rw (s, ei) (emit-IsRun pre run post e inside b a)

  snoc :
      (pre run : Bytes) (c : ℕ) (rest : Bytes)
      → bytes ≡ pre ++ (run ++ (c ∷ rest))
      → bytes ≡ pre ++ ((run ++ (c ∷ [])) ++ rest)
  snoc pre run c rest e = e ∙ ap (λ (t : Bytes). pre ++ t) (sym (append_assoc run (c ∷ []) rest))

  step_inside :
      (c : ℕ) (rest : Bytes) (i : ℕ) (st : Option ℕ)
      → is_base64ish c ≡ true
      → entropy_hits x bytes (c ∷ rest) i st
        ≡ entropy_hits x bytes rest (i + 1) (some (or_start st i))
  unfolding entropy_hits
  step_inside c rest i st h = rw (h, entropy_hits)

  step_outside :
      (c : ℕ) (rest : Bytes) (i : ℕ) (st : Option ℕ)
      → is_base64ish c ≡ false
      → entropy_hits x bytes (c ∷ rest) i st
        ≡ close_run x bytes st i ++ entropy_hits x bytes rest (i + 1) none
  unfolding entropy_hits
  step_outside c rest i st h = rw (h, entropy_hits)

  Started-next :
      (st : Option ℕ) (pre run : Bytes) (c i : ℕ)
      → i ≡ length pre + length run
      → Started st pre run
      → Started (some (or_start st i)) pre (run ++ (c ∷ []))
  Started-next none pre run c i ei s = omega (arith, ap (length {A = ℕ}) s)
  Started-next (some start) pre run c i ei s = s

  entropy_hits-IsRun :
      (rest pre run : Bytes) (i : ℕ) (st : Option ℕ)
      → bytes ≡ pre ++ (run ++ rest)
      → i ≡ length pre + length run
      → Started st pre run
      → all is_base64ish run ≡ true
      → Begins pre
      → All IsRun (entropy_hits x bytes rest i st)
  entropy_hits-IsRun [] pre run i st e ei s inside b =
      unfold entropy_hits in
      close_run-IsRun st pre run [] (length bytes) e
        (omega (arith, ap (length {A = ℕ}) e, length-append pre (run ++ []), length-append run []))
        s inside b tt
  entropy_hits-IsRun (c ∷ rest) pre run i st e ei s inside b = elim (Bool-cases (is_base64ish c)) [
    | inl is_in ↦ rw (step_inside c rest i st is_in) (
        entropy_hits-IsRun rest pre (run ++ (c ∷ [])) (i + 1) (some (or_start st i))
          (snoc pre run c rest e) (omega (arith, length-append run (c ∷ [])))
          (Started-next st pre run c i ei s)
          (rw (all-append is_base64ish run (c ∷ [])) (unfold all in rw (inside, is_in))) b)
    | inr is_out ↦ rw (step_outside c rest i st is_out) (
        All-append IsRun _ _ (close_run-IsRun st pre run (c ∷ rest) i e ei s inside b is_out) (
          entropy_hits-IsRun rest (pre ++ (run ++ (c ∷ []))) [] (i + 1) none
            (snoc pre run c rest e ∙ sym (append_assoc pre (run ++ (c ∷ [])) rest))
            (omega (arith, length-append pre (run ++ (c ∷ [])), length-append run (c ∷ []))) refl
            (unfold all in refl)
            (inr (pre ++ run, c, sym (append_assoc pre run (c ∷ [])), is_out))))
  ]

  -- Every entropy hit of a scan is a whole run: at least 20 bytes of the base64-like alphabet at
  -- the reported place, with no such byte beside them, whose entropy is over the threshold.
  entropy_hits_sound : All IsRun (entropy_hits x bytes bytes 0 none)
  entropy_hits_sound =
      entropy_hits-IsRun bytes [] [] 0 none refl refl refl (unfold all in refl) (inl refl)

  filter-hits_of :
      (name : Text) (ms : List (ℕ × ℕ)) → filter is_pattern (hits_of name ms) ≡ hits_of name ms
  unfolding filter
  filter-hits_of name [] = refl
  filter-hits_of name ((start, end) ∷ ms) = ground (arith, filter-hits_of name ms)

  filter-matches :
      (name : Text) (b : Bool) (ms : List (ℕ × ℕ))
      → filter is_pattern (if b then hits_of name ms else []) ≡ (if b then hits_of name ms else [])
  filter-matches name true ms = filter-hits_of name ms
  filter-matches name false ms = unfold filter in refl

  filter-pattern_hits :
      (ps : List TokenPattern)
      → filter is_pattern (pattern_hits x ps bytes) ≡ pattern_hits x ps bytes
  unfolding pattern_hits
  filter-pattern_hits [] = unfold filter in refl
  filter-pattern_hits (p ∷ ps) =
      filter-append is_pattern _ (pattern_hits x ps bytes)
      ∙ ap₂ (λ (s t : List Hit). s ++ t) (filter-matches p.name (x.regex.is_match p.regex bytes) _)
          (filter-pattern_hits ps)

  filter-runs : (hs : List Hit) → All IsRun hs → filter is_pattern hs ≡ []
  unfolding filter
  filter-runs [] v = refl
  filter-runs (h ∷ hs) v = ground (arith, v.0.named, filter-runs hs v.1)

  -- A policy that skips entropy drops the entropy hits and no pattern hit; any other policy
  -- reports the pattern hits before the entropy hits.
  scan_with_lem :
      (policy : ScanPolicy)
      → scan_with x bytes policy
        ≡ pattern_hits x patterns bytes
          ++ (if policy.skip_entropy then [] else entropy_hits x bytes bytes 0 none)
  unfolding scan_with scan_impl
  scan_with_lem policy = elim (Bool-cases policy.skip_entropy) [
    | inl skip ↦ rw skip (
        filter-append is_pattern (pattern_hits x patterns bytes) (entropy_hits x bytes bytes 0 none)
        ∙ ap₂ (λ (s t : List Hit). s ++ t) (filter-pattern_hits patterns)
            (filter-runs _ entropy_hits_sound))
    | inr full ↦ rw full
  ]
