-- ===== src/Common/Results.antt =====
-- Rust's `Result`, and the steps of code that mutates a state and may fail: what was written
-- before a failure stays written, so the state comes back beside the error too.
use mathlib.Core.Path.{◌≡◌, refl, ap, subst}
use mathlib.Core.Option.{Option, none, some}

pub data Result {ℓ κ} (E : Type ℓ) (A : Type κ) : Type (ℓ ⊔ κ) where
  ok : A → Result E A
  err : E → Result E A

module _ {ℓ κ} {E : Type ℓ} {A : Type κ} where
  abbrev pub and_then {μ} : {B : Type μ} → Result E A → (A → Result E B) → Result E B
  and_then (ok a) f = f a
  and_then (err e) f = err e

  -- `r.map_err(f)`
  abbrev pub map_err {μ} : {F : Type μ} → (E → F) → Result E A → Result F A
  map_err f (ok a) = ok a
  map_err f (err e) = err (f e)

  -- `o.ok_or(e)`
  abbrev pub ok_or : Option A → E → Result E A
  ok_or none e = err e
  ok_or (some a) e = ok a

  pub and_then-eq-ok {μ} :
      {B : Type μ} (m : Result E A) (f : A → Result E B) {b : B}
      → and_then m f ≡ ok b
      → (a : A) × (m ≡ ok a) × (f a ≡ ok b)
  and_then-eq-ok (ok a) f h = (a, refl, h)
  and_then-eq-ok (err e) f h = cc

abbrev pub Action : Type 0 → Type 0 → Type 0 → Type 0
Action S E A = S → Result E A × S

module _ {S E A : Type 0} where
  abbrev pub pure : A → Action S E A
  pure a s = (ok a, s)

  abbrev pub raise : E → Action S E A
  raise e s = (err e, s)

  abbrev pub lift : Result E A → Action S E A
  lift r s = (r, s)

  abbrev pub gets : (S → A) → Action S E A
  gets f s = (ok (f s), s)

module _ {S E A B : Type 0} where
  abbrev pub continue : Result E A → (A → Action S E B) → Action S E B
  continue (ok a) f s = f a s
  continue (err e) f s = (err e, s)

  infixl 5 ◌>>=◌ ◌>>◌
  abbrev pub ◌>>=◌ : Action S E A → (A → Action S E B) → Action S E B
  ◌>>=◌ m f s = continue (m s).0 f (m s).1

  abbrev pub ◌>>◌ : Action S E A → Action S E B → Action S E B
  m >> k = m >>= λ _. k

-- `m` keeps `P`, whether it succeeds or fails.
pub record Keeps {S E A : Type 0} (P : S → Type 0) (m : Action S E A) : Type 0 where
  pub at : (s : S) → P s → P (m s).1

module _ {S E A : Type 0} {P : S → Type 0} where
  pub Keeps-pure : (a : A) → Keeps {E = E} P (pure a)
  Keeps-pure a = record { at = λ s h. h }

  pub Keeps-raise : (e : E) → Keeps {A = A} P (raise e)
  Keeps-raise e = record { at = λ s h. h }

  pub Keeps-lift : (r : Result E A) → Keeps P (lift r)
  Keeps-lift r = record { at = λ s h. h }

module _ {S E A B : Type 0} {P : S → Type 0} where
  pub Keeps-bind :
      (m : Action S E A) (f : A → Action S E B)
      → Keeps P m
      → ((a : A) → Keeps P (f a))
      → Keeps P (m >>= f)
  Keeps-bind m f km kf = record { at = λ s h. run (m s).0 (m s).1 (km.at s h) }
    where
      run : (r : Result E A) (s : S) → P s → P (continue r f s).1
      run (ok a) s h = (kf a).at s h
      run (err e) s h = h

pub ruleset keeps_rules = (Keeps-pure, Keeps-raise, Keeps-lift, Keeps-bind)

-- Inversion of a successful bind.
pub bind-eq-ok :
    {S E A B : Type 0} (m : Action S E A) (f : A → Action S E B) (s : S) {b : B}
    → ((m >>= f) s).0 ≡ ok b
    → (a : A) × ((m s).0 ≡ ok a) × ((f a (m s).1).0 ≡ ok b)
bind-eq-ok {S} {E} {A} {B} m f s {b} h = go (m s).0 refl h
  where
    go :
        (r : Result E A)
        → (m s).0 ≡ r
        → (continue r f (m s).1).0 ≡ ok b
        → (a : A) × ((m s).0 ≡ ok a) × ((f a (m s).1).0 ≡ ok b)
    go (ok a) e h = (a, e, h)
    go (err k) e h = cc

pub bind-ok :
    {S E A B : Type 0} (m : Action S E A) (f : A → Action S E B) (s : S) {a : A}
    → (m s).0 ≡ ok a
    → (m >>= f) s ≡ f a (m s).1
bind-ok m f s e = ap (λ r. continue r f (m s).1) e

-- What is kept by an action that fails
pub record Spares {S E A : Type 0} (P : S → Type 0) (m : Action S E A) : Type 0 where
  pub at : (s : S) → P s → (e : E) → (m s).0 ≡ err e → P (m s).1

module _ {S E A : Type 0} {P : S → Type 0} where
  pub Spares-Keeps : (m : Action S E A) → Keeps P m → Spares P m
  Spares-Keeps m k = record { at = λ s h e f. k.at s h }

  pub Spares-bind :
      {B : Type 0} (m : Action S E A) (f : A → Action S E B)
      → Keeps P m
      → ((a : A) → Spares P (f a))
      → Spares P (m >>= f)
  Spares-bind {B} m f k sf = record { at = λ s h. go (m s).0 (m s).1 (k.at s h) }
    where
      go :
          (r : Result E A) (t : S)
          → P t
          → (e : E) → (continue r f t).0 ≡ err e
          → P (continue r f t).1
      go (ok a) t h e w = (sf a).at t h e w
      go (err k) t h e w = h

  -- An action followed by one that never fails
  pub Spares-then :
      {B : Type 0} (m : Action S E A) (g : A → S → B × S)
      → Spares P m
      → Spares P (m >>= λ a s. (ok (g a s).0, (g a s).1))
  Spares-then {B} m g sm = record { at = λ s h e w. go s h e (m s).0 refl w }
    where
      go :
          (s : S)
          → P s
          → (e : E) (r : Result E A) → (m s).0 ≡ r
          → (continue r (λ a s. (ok (g a s).0, (g a s).1)) (m s).1).0 ≡ err e
          → P (continue r (λ a s. (ok (g a s).0, (g a s).1)) (m s).1).1
      go s h e (ok a) q w = cc
      go s h e (err k) q w = sm.at s h k q

pub map_err-eq-ok :
    {E F A : Type 0} (f : E → F) (r : Result E A) {a : A} → map_err f r ≡ ok a → r ≡ ok a
map_err-eq-ok f (ok b) h = cc
map_err-eq-ok f (err e) h = cc

pub map_err-eq-err :
    {E F A : Type 0} (f : E → F) (r : Result E A) {k : F}
    → map_err f r ≡ err k
    → (e : E) × (r ≡ err e)
map_err-eq-err f (ok b) h = cc
map_err-eq-err f (err e) h = (e, refl)

-- Every result that `m` may return satisfies `P`.
pub record Yields {S E A : Type 0} (P : A → Type 0) (m : Action S E A) : Type 0 where
  pub at : (s : S) (a : A) → (m s).0 ≡ ok a → P a

pub Yields-pure :
    {S E A : Type 0} {P : A → Type 0} (a : A) → P a → Yields {S = S} {E = E} P (pure a)
Yields-pure {A = A} {P = P} a p = record { at = λ s b h. subst P (cc) p }

pub Yields-bind :
    {S E A B : Type 0} {P : A → Type 0} {Q : B → Type 0} (m : Action S E A) (f : A → Action S E B)
    → Yields P m
    → ((a : A) → P a → Yields Q (f a))
    → Yields Q (m >>= f)
Yields-bind m f km kf = record {
  at = λ s b h. let (a, ma, fa) = bind-eq-ok m f s h in (kf a (km.at s a ma)).at (m s).1 b fa;
}
