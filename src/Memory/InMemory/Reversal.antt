-- ===== src/Memory/InMemory/Reversal.antt =====
-- Reversing migrations is all or nothing, and leads to the target.
use git_agentic.Common.{
  ℕ, zero, suc, ◌-◌, ◌≡◌, ◌≢◌, refl, sym, ap, ◌∙◌, Bool-cases, Option-cases, inl, inr, Option, some,
  List, [], ◌∷◌, ◌++◌, map, Result, ok, err, length, take, ◌==◌, nat_eq, list_eq, arith,
  length-append, take-append, take-append-drop, ==_refl, eq_of_==, length-map,
}
use mathlib.Core.List.{reverse, append-nil, reverse-append, reverse-cons, reverse-reverse}
use mathlib.Core.Path.{subst}
use git_agentic.Common.Text.{Text}
use git_agentic.Memory.InMemory.{
  MigrationStep, InMemoryState, MemoryError, baseline, last_or, position, check_steps,
  migrations_after, apply_reverse_migrations,
}

length-reverse : (l : List Text) → length (reverse l) ≡ length l
length-reverse [] = refl
length-reverse (a ∷ l) =
    ap length (reverse-cons a l)
    ∙ omega (arith, length-append (reverse l) (a ∷ []), length-reverse l)

-- Steps that pass the check are the newest migrations, newest first.
check_steps_ok :
    (expected : List Text) (steps : List MigrationStep)
    → check_steps expected steps ≡ ok tt
    → (older : List Text) × (expected ≡ map (λ (s : MigrationStep). s.name) steps ++ older)
unfolding check_steps
check_steps_ok expected [] e = (expected, refl)
check_steps_ok [] (step ∷ steps) e = cc
check_steps_ok (applied ∷ expected) (step ∷ steps) e = elim (Bool-cases (applied == step.name)) [
  | inl q ↦
      let (older, r) = check_steps_ok expected steps (rw q at e) in
      (older, cc (r, eq_of_== applied step.name q))
  | inr q ↦ cc (rw q at e)
]

check_steps_pass :
    (steps : List MigrationStep) (older : List Text)
    → check_steps (map (λ (s : MigrationStep). s.name) steps ++ older) steps ≡ ok tt
unfolding check_steps
check_steps_pass [] older = refl
check_steps_pass (step ∷ steps) older = rw (==_refl step.name) (check_steps_pass steps older)

module _ {Json : Type 0} where
  -- Reversing succeeds exactly for the newest migrations, newest first, and then leaves the older
  -- ones with the newest of them, or the baseline, as live version; it touches no table. Otherwise
  -- it changes nothing.
  apply_reverse_migrations_lem :
      (steps : List MigrationStep) (s : InMemoryState Json)
      → ((older : List Text)
          → s.applied_migrations ≡ older ++ reverse (map (λ (m : MigrationStep). m.name) steps)
          → steps ≢ []
          → apply_reverse_migrations steps s ≡ (
            ok tt,
            record s { applied_migrations = older; schema_version = last_or baseline older },
          ))
        × ((apply_reverse_migrations steps s).0 ≡ ok tt
            → (older : List Text) × (s.applied_migrations
                ≡ older ++ reverse (map (λ (m : MigrationStep). m.name) steps)))
        × ((e : MemoryError)
            → (apply_reverse_migrations steps s).0 ≡ err e
            → (apply_reverse_migrations steps s).1 ≡ s)
  unfolding apply_reverse_migrations
  apply_reverse_migrations_lem [] s = (
    λ older e ne. absurd (ne refl),
    λ h. (s.applied_migrations, sym (append-nil s.applied_migrations)),
    λ e h. refl,
  )
  apply_reverse_migrations_lem (step ∷ steps) s = (
    λ older e ne.
        rw (passes older e, apply_reverse_migrations)
          (ap (λ (k : List Text). after k) (ap kept_of e ∙ kept older)),
    λ h. peeled (check_steps_ok (reverse s.applied_migrations) (step ∷ steps) (ground arith)),
    λ e h. ground arith,
  )
    where
      names : List Text
      names = map (λ (m : MigrationStep). m.name) (step ∷ steps)

      after : List Text → Result MemoryError (Unit {0}) × InMemoryState Json
      after k = (ok tt, record s { applied_migrations = k; schema_version = last_or baseline k })

      kept_of : List Text → List Text
      kept_of l = take (length l - length (step ∷ steps)) l

      peeled :
          (older : List Text) × (reverse s.applied_migrations ≡ names ++ older)
          → (older : List Text) × (s.applied_migrations ≡ older ++ reverse names)
      peeled (older, e) = (
        reverse older,
        sym (reverse-reverse s.applied_migrations) ∙ ap reverse e ∙ reverse-append names older,
      )

      turned : (older : List Text) → reverse (older ++ reverse names) ≡ names ++ reverse older
      turned older =
          reverse-append older (reverse names)
          ∙ ap (λ (l : List Text). l ++ reverse older) (reverse-reverse names)

      passes :
          (older : List Text)
          → s.applied_migrations ≡ older ++ reverse names
          → check_steps (reverse s.applied_migrations) (step ∷ steps) ≡ ok tt
      passes older e =
          ap (λ (l : List Text). check_steps l (step ∷ steps)) (ap reverse e ∙ turned older)
          ∙ check_steps_pass (step ∷ steps) (reverse older)

      fewer :
          (older : List Text)
          → length (older ++ reverse names) - length (step ∷ steps) ≡ length older
      fewer older = omega (
        arith,
        length-append older (reverse names),
        length-reverse names,
        length-map (λ (m : MigrationStep). m.name) (step ∷ steps),
      )

      kept :
          (older : List Text)
          → take (length (older ++ reverse names) - length (step ∷ steps)) (older ++ reverse names)
            ≡ older
      kept older = rw (fewer older) (take-append older (reverse names))

  -- The live version is the newest applied migration, or the baseline.
  abbrev pub IsLive : InMemoryState Json → Type 0
  IsLive s = s.schema_version ≡ last_or baseline s.applied_migrations

turn : (l names : List Text) → reverse l ≡ names → l ≡ reverse names
turn l names e = sym (reverse-reverse l) ∙ ap reverse e

position_lem :
    (target : Text) (names : List Text) (pos : ℕ) (d : Text)
    → position target names ≡ some pos
    → last_or d (take (suc pos) names) ≡ target
unfolding position
position_lem target [] pos d e = cc
position_lem target (n ∷ names) pos d e = elim (Bool-cases (n == target)) [
  | inl q ↦ here pos (rw q at e) (eq_of_== n target q)
  | inr q ↦ elim (Option-cases (position target names)) [
    | inl m ↦ cc (rw (q, m) at e)
    | inr (i, f) ↦ later pos i (rw (q, f) at e) (position_lem target names i n f)
  ]
]
  where
    here :
        (pos : ℕ)
        → ◌≡◌ {A = Option ℕ} (some 0) (some pos)
        → n ≡ target
        → last_or n (take pos names) ≡ target
    here zero e q = q
    here (suc pos) e q = cc

    same : {i pos : ℕ} → ◌≡◌ {A = Option ℕ} (some (suc i)) (some pos) → suc i ≡ pos
    same e = cc

    later :
        (pos i : ℕ)
        → ◌≡◌ {A = Option ℕ} (some (suc i)) (some pos)
        → last_or n (take (suc i) names) ≡ target
        → last_or n (take pos names) ≡ target
    later pos i e q = subst (λ (k : ℕ). last_or n (take k names) ≡ target) (same e) q

module _ {Json : Type 0} where
  Reached : Text → InMemoryState Json → Result MemoryError (Unit {0}) × InMemoryState Json → Type 0
  Reached target s r = (r.0 ≡ ok tt) × (r.1.schema_version ≡ target) × (r.1.tables ≡ s.tables)

  to_older :
      (target : Text) (steps : List MigrationStep) (s : InMemoryState Json) (older : List Text)
      → IsLive s
      → s.applied_migrations ≡ older ++ reverse (map (λ (m : MigrationStep). m.name) steps)
      → last_or baseline older ≡ target
      → Reached target s (apply_reverse_migrations steps s)
  unfolding Reached
  to_older target [] s older live e l =
      unfold apply_reverse_migrations in
      (refl, live ∙ ap (last_or baseline) (e ∙ append-nil older) ∙ l, refl)
  to_older target (step ∷ steps) s older live e l =
      subst (Reached target s)
        (sym ((apply_reverse_migrations_lem (step ∷ steps) s).0 older e (λ k. cc))) (refl, l, refl)

  -- Reversing what `migrations_after` lists for a target makes the target the live version, if the
  -- live version was the newest applied migration.
  pub reverse_to_target :
      (target : Text) (steps : List MigrationStep) (s : InMemoryState Json)
      → IsLive s
      → migrations_after target s ≡ ok (map (λ (m : MigrationStep). m.name) steps)
      → ((apply_reverse_migrations steps s).0 ≡ ok tt)
        × ((apply_reverse_migrations steps s).1.schema_version ≡ target)
        × ((apply_reverse_migrations steps s).1.tables ≡ s.tables)
  unfolding migrations_after Reached
  reverse_to_target target steps s live e = elim (Bool-cases (target == baseline)) [
    | inl q ↦
        to_older target steps s [] live (turn _ _ (okay (rw q at e)))
          (sym (eq_of_== target baseline q))
    | inr q ↦ elim (Option-cases (position target s.applied_migrations)) [
      | inl m ↦ elim (Bool-cases (target == s.schema_version)) [
        | inl l ↦
            to_older target steps s s.applied_migrations live
              (sym (append-nil s.applied_migrations)
                ∙ ap (λ (n : List Text). s.applied_migrations ++ reverse n)
                    (okay (rw (q, m, l) at e)))
              (sym live ∙ sym (eq_of_== target s.schema_version l))
        | inr l ↦ cc (rw (q, m, l) at e)
      ]
      | inr (pos, f) ↦
          to_older target steps s (take (suc pos) s.applied_migrations) live
            (sym (take-append-drop (suc pos) s.applied_migrations)
              ∙ ap (λ (n : List Text). take (suc pos) s.applied_migrations ++ n)
                  (turn _ _ (okay (rw (q, f) at e))))
            (position_lem target s.applied_migrations pos baseline f)
    ]
  ]
    where
      okay : {a b : List Text} → ◌≡◌ {A = Result MemoryError (List Text)} (ok a) (ok b) → a ≡ b
      okay e = cc
