-- ===== src/Projection/Folds.antt =====
-- Invariants of the loop over the current session's events.
use tmux_a2a_postman.Base.{
  false, true, Option, Option-cases, some, List, [], ◌∷◌, ◌≡◌, inl, inr, arith, subst,
  if◌then◌else◌, Bool-cases,
}
use tmux_a2a_postman.Journal.{Event, SessionState}
use tmux_a2a_postman.Projection.{fold_current, is_current}

module _ {ℓ} {Raw : Type 0} {S : Type 0} (step : S → Event Raw → Option S) (P : S → Type ℓ)
    (keeps : (s s' : S) (e : Event Raw) → P s → step s e ≡ some s' → P s') where
  keeps_one :
      (state : SessionState) (s t : S) (e : Event Raw)
      → P s
      → (if is_current state e then step s e else some s) ≡ some t
      → P t
  keeps_one state s t e h eq = elim (Bool-cases (is_current state e)) [
    | inl c ↦ keeps s t e h (ground arith)
    | inr c ↦ let q : s ≡ t = ground arith in subst P q h
  ]

  -- What every step keeps, the whole loop keeps.
  pub fold_current_keeps :
      (state : SessionState) (s s' : S) (es : List (Event Raw))
      → P s
      → fold_current step state s es ≡ some s'
      → P s'
  unfolding fold_current
  fold_current_keeps state s s' [] h eq = let q : s ≡ s' = ground arith in subst P q h
  fold_current_keeps state s s' (e ∷ es) h eq =
      elim (Option-cases (if is_current state e then step s e else some s)) [
        | inl n ↦ ground arith
        | inr (t, et) ↦ fold_current_keeps state t s' es (keeps_one state s t e h et) (ground arith)
      ]

-- the events of a list, newest first, on those of another one
unfoldable pub newest_first : {A : Type 0} → List A → List A → List A
newest_first [] h = h
newest_first (e ∷ es) h = newest_first es (e ∷ h)

module _ {ℓ} {Raw : Type 0} {S : Type 0} (step : S → Event Raw → Option S) (state : SessionState)
    (P : List (Event Raw) → S → Type ℓ)
    (keeps : (h : List (Event Raw)) (s s' : S) (e : Event Raw)
      → is_current state e ≡ true
      → P h s
      → step s e ≡ some s'
      → P (e ∷ h) s')
    (skips : (h : List (Event Raw)) (s : S) (e : Event Raw)
      → is_current state e ≡ false
      → P h s
      → P (e ∷ h) s) where
  step_history :
      (h : List (Event Raw)) (s t : S) (e : Event Raw)
      → P h s
      → (if is_current state e then step s e else some s) ≡ some t
      → P (e ∷ h) t
  step_history h s t e p eq = elim (Bool-cases (is_current state e)) [
    | inl c ↦ keeps h s t e c p (ground arith)
    | inr c ↦ let q : s ≡ t = ground arith in subst (P (e ∷ h)) q (skips h s e c p)
  ]

  -- What every step keeps of a state and the events behind it, newest first, holds at the end.
  pub fold_current_history :
      (h : List (Event Raw)) (s s' : S) (es : List (Event Raw))
      → P h s
      → fold_current step state s es ≡ some s'
      → P (newest_first es h) s'
  unfolding fold_current newest_first
  fold_current_history h s s' [] p eq = let q : s ≡ s' = ground arith in subst (P h) q p
  fold_current_history h s s' (e ∷ es) p eq =
      elim (Option-cases (if is_current state e then step s e else some s)) [
        | inl n ↦ ground arith
        | inr (t, et) ↦
            fold_current_history (e ∷ h) t s' es (step_history h s t e p et) (ground arith)
      ]
