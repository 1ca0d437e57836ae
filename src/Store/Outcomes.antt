-- ===== src/Store/Outcomes.antt =====
-- Reasoning about sequences of statements: what holds of the tables when one returns or throws.
use priority_kb.Base.{ℕ, Bool, true, false, ◌≡◌, refl, Option-cases, inl, inr, ◌⊎◌, subst}
use priority_kb.Store.Rows.{Tables}
use priority_kb.Store.Sessions.{
  Result, ok, err, World, Outside, Action, pure, after, ◌>>◌, write, select, elsewhere, undo,
  atomic, transaction,
}

-- Other sessions commit nothing meanwhile.
abbrev pub Quiet : {V : Type 0} → Outside V → Type 0
Quiet {V} out = (n : ℕ) (t : Tables V) → out.others n t ≡ t

-- `P` holds of the value and the tables where it returns, `E` of the tables where it throws.
abbrev pub Ends :
    {V A : Type 0} → Result A × World V → (A → Tables V → Type 0) → (Tables V → Type 0) → Type 0
Ends (ok a, w) P E = P a w.tables
Ends (err e, w) P E = E w.tables

module _ {V : Type 0} where
  pub Ends-after :
      {A B : Type 0} (r : Result A × World V) (k : A → Action V B) (P : A → Tables V → Type 0)
      (Q : B → Tables V → Type 0) (E : Tables V → Type 0)
      → Ends r P E
      → ((a : A) (w : World V) → P a w.tables → Ends (k a w) Q E)
      → Ends (after r k) Q E
  Ends-after (ok a, w) k P Q E h f = f a w h
  Ends-after (err e, w) k P Q E h f = h

  pub Ends-weaken :
      {A : Type 0} (r : Result A × World V) (P Q : A → Tables V → Type 0) (E F : Tables V → Type 0)
      → Ends r P E
      → ((a : A) (t : Tables V) → P a t → Q a t)
      → ((t : Tables V) → E t → F t)
      → Ends r Q F
  Ends-weaken (ok a, w) P Q E F h f g = f a w.tables h
  Ends-weaken (err e, w) P Q E F h f g = g w.tables h

  -- What a step inside a transaction leaves when it throws does not matter.
  abbrev pub Any : Tables V → Type 0
  Any t = Unit

  -- A call outside the database leaves the tables.
  pub Ends-outside :
      {A : Type 0} (r : Result A) (w : World V)
      → Ends (r, w) (λ _ t. t ≡ w.tables) (λ t. t ≡ w.tables)
  Ends-outside (ok a) w = refl
  Ends-outside (err e) w = refl

  Ends-undo :
      {A : Type 0} (t : Tables V) (r : Result A × World V) (P : A → Tables V → Type 0)
      → Ends r P Any
      → Ends (undo t r) P (λ s. s ≡ t)
  Ends-undo t (ok a, w) P h = h
  Ends-undo t (err e, w) P h = refl

module _ {V : Type 0} (out : Outside V) where
  pub Ends-write :
      (f : Tables V → Tables V) (w : World V) (P : ℕ → Tables V → Type 0) (E : Tables V → Type 0)
      → P 0 (f w.tables)
      → E w.tables
      → Ends (write out f w) P E
  unfolding write
  Ends-write f w P E h e = elim (Option-cases (out.fault w.clock)) [
    | inl q ↦ rw (q, write) h
    | inr (x, q) ↦ rw (q, write) e
  ]

  pub Ends-select :
      {A : Type 0} (f : Tables V → A) (w : World V) (P : A → Tables V → Type 0)
      (E : Tables V → Type 0)
      → P (f w.tables) w.tables
      → E w.tables
      → Ends (select out f w) P E
  unfolding select
  Ends-select f w P E h e = elim (Option-cases (out.fault w.clock)) [
    | inl q ↦ rw (q, select) h
    | inr (x, q) ↦ rw (q, select) e
  ]

  pub Ends-atomic :
      {A : Type 0} (m : Action V A) (w : World V) (P : A → Tables V → Type 0)
      → Ends (m w) P Any
      → Ends (atomic out m w) P (λ t. t ≡ w.tables)
  unfolding atomic
  Ends-atomic m w P h = Ends-undo w.tables (after (m w) (λ a. write out (λ t. t) >> pure a)) P (
      Ends-after (m w) (λ a. write out (λ t. t) >> pure a) P P Any h
        (λ a v p.
          Ends-after (write out (λ t. t) v) (λ _. pure a) (λ _ t. P a t) P Any
            (Ends-write (λ t. t) v (λ _ t. P a t) Any p tt) (λ _ u q. q)))

  -- The tables that a transaction begins with.
  abbrev pub Start : World V → Tables V → Type 0
  Start w t = (t ≡ w.tables) ⊎ ((n : ℕ) × (t ≡ out.others n w.tables))

  pub Ends-transaction :
      {A : Type 0} (nested : Bool) (m : Action V A) (w : World V)
      (P : Tables V → A → Tables V → Type 0)
      → ((v : World V) → Start w v.tables → Ends (m v) (P v.tables) Any)
      → Ends (transaction out nested m w) (λ a t. (t0 : Tables V) × Start w t0 × P t0 a t) (Start w)
  unfolding transaction elsewhere
  Ends-transaction true m w P h =
      Ends-weaken (atomic out m w) (P w.tables) _ (λ t. t ≡ w.tables) (Start w)
        (Ends-atomic m w (P w.tables) (h w (inl refl))) (λ a t p. (w.tables, inl refl, p))
        (λ t e. inl e)
  Ends-transaction false m w P h =
      let t0 = out.others w.clock w.tables in
      let v : World V = record { tables = t0; clock = w.clock } in
      Ends-weaken (atomic out m v) (P t0) _ (λ t. t ≡ t0) (Start w)
        (Ends-atomic m v (P t0) (h v (inr (w.clock, refl)))) (λ a t p. (t0, inr (w.clock, refl), p))
        (λ t e. inr (w.clock, e))

-- `m` turns the tables into `f` of them where it returns.
pub record Does {V A : Type 0} (m : Action V A) (f : Tables V → Tables V) : Type 0 where
  pub ends : (w : World V) → Ends (m w) (λ _ t. t ≡ f w.tables) Any

module _ {V : Type 0} where
  pub Does-pure : {A : Type 0} (a : A) → Does (pure {V = V} a) (λ t. t)
  Does-pure a = record { ends = λ w. refl }

  pub Does-write : (out : Outside V) (f : Tables V → Tables V) → Does (write out f) f
  Does-write out f = record { ends = λ w. Ends-write out f w (λ _ t. t ≡ f w.tables) Any refl tt }

  pub Does-then :
      {A B : Type 0} {m : Action V A} {k : Action V B} {f g : Tables V → Tables V}
      → Does m f
      → Does k g
      → Does (m >> k) (λ t. g (f t))
  Does-then {A} {B} {m} {k} {f} {g} p q = record {
    ends = λ w.
        Ends-after (m w) (λ _. k) (λ _ t. t ≡ f w.tables) (λ _ t. t ≡ g (f w.tables)) Any (p.ends w)
          (λ a v e. subst (λ s. Ends (k v) (λ _ t. t ≡ g s) Any) e (q.ends v));
  }
