-- ===== src/Times/Sliding.antt =====
-- A component that keeps a sliding window of instants: what it shows at an instant, what a call
-- adds to that, and two facts that follow for every series of calls.
use native.Mathlib.Nat.{le_trans}
use mathlib.Core.List.{append-nil, append_assoc}
use nullfield.Prelude.{
  ℕ, suc, ◌≤◌, ◌≡◌, sym, ◌∙◌, ap, ◌⊎◌, inl, inr, List, [], ◌∷◌, ◌++◌, arith, length, length-append,
  All,
}
use nullfield.Times.{trim, trim-append, length-trim-le}

pub record Sliding (S C : Type 0) (d : ℕ) : Type 0 where
  pub view : S → ℕ → List ℕ
  pub instant : C → ℕ
  pub step : S → C → S
  pub added : S → C → List ℕ
  pub view-later : (s : S) (now later : ℕ) → now ≤ later → view s later ≡ trim d later (view s now)
  pub view-step : (s : S) (c : C) → view (step s c) (instant c) ≡ view s (instant c) ++ added s c

module _ {S C : Type 0} {d : ℕ} (w : Sliding S C d) where
  -- The state after a series of calls, and all that the calls added.
  unfoldable pub run : List C → S → S
  run [] s = s
  run (c ∷ calls) s = run calls (w.step s c)

  unfoldable pub log : List C → S → List ℕ
  log [] s = []
  log (c ∷ calls) s = w.added s c ++ log calls (w.step s c)

  -- The clock does not run backwards, and has not passed `later` at the end.
  abbrev pub IsOrdered : ℕ → List C → ℕ → Type 0
  IsOrdered last [] later = last ≤ later
  IsOrdered last (c ∷ calls) later = (last ≤ w.instant c) × IsOrdered (w.instant c) calls later

  -- From `last` on, the state shows what the window holds of `past`.
  abbrev pub Shows : ℕ → List ℕ → S → Type 0
  Shows last past s = (later : ℕ) → last ≤ later → trim d later past ≡ w.view s later

  Shows-step :
      (last : ℕ) (past : List ℕ) (s : S) (c : C)
      → last ≤ w.instant c
      → Shows last past s
      → Shows (w.instant c) (past ++ w.added s c) (w.step s c)
  Shows-step last past s c h v later k =
      trim-append d later past (w.added s c)
      ∙ ap (λ xs. xs ++ trim d later (w.added s c))
          (v later (le_trans h k) ∙ w.view-later s (w.instant c) later k)
      ∙ sym (trim-append d later (w.view s (w.instant c)) (w.added s c))
      ∙ ap (trim d later) (sym (w.view-step s c))
      ∙ sym (w.view-later (w.step s c) (w.instant c) later k)

  -- Nothing is lost and nothing is made up: after any ordered series of calls, the state shows
  -- just the instants that were added and that the window still holds.
  pub view-run :
      (last later : ℕ) (past : List ℕ) (calls : List C) (s : S)
      → IsOrdered last calls later
      → Shows last past s
      → w.view (run calls s) later ≡ trim d later (past ++ log calls s)
  unfolding run log
  view-run last later past [] s o v = sym (v later o) ∙ ap (trim d later) (sym (append-nil past))
  view-run last later past (c ∷ calls) s o v =
      view-run (w.instant c) later (past ++ w.added s c) calls (w.step s c) o.1
        (Shows-step last past s c o.0 v)
      ∙ ap (trim d later) (append_assoc past (w.added s c) (log calls (w.step s c)))

  -- A call of the kind `P` adds nothing, or one instant where fewer than `n + 1` are shown.
  abbrev pub HasRoom : (C → Type 0) → ℕ → Type 0
  HasRoom P n =
      (s : S) (c : C)
      → P c
      → (w.added s c ≡ [])
        ⊎ ((w.added s c ≡ w.instant c ∷ []) × (length (w.view s (w.instant c)) ≤ n))

  view-bounded :
      (n last now : ℕ) (s : S)
      → last ≤ now
      → length (w.view s last) ≤ suc n
      → length (w.view s now) ≤ suc n
  view-bounded n last now s h b =
      rw (w.view-later s last now h) (le_trans (length-trim-le d now (w.view s last)) b)

  step-bounded :
      (P : C → Type 0) (n last : ℕ) (s : S) (c : C)
      → HasRoom P n
      → P c
      → last ≤ w.instant c
      → length (w.view s last) ≤ suc n
      → length (w.view (w.step s c) (w.instant c)) ≤ suc n
  step-bounded P n last s c room p h b = rw (w.view-step s c) (elim (room s c p) [
    | inl nothing ↦ rw (nothing, append-nil) (view-bounded n last (w.instant c) s h b)
    | inr (one, less) ↦
        rw one (omega (arith, length-append (w.view s (w.instant c)) (w.instant c ∷ [])))
  ])

  -- Where such calls are added only while there is room, the window never holds more than its bound.
  pub run-bounded :
      (P : C → Type 0) (n last later : ℕ) (calls : List C) (s : S)
      → HasRoom P n
      → All P calls
      → IsOrdered last calls later
      → length (w.view s last) ≤ suc n
      → length (w.view (run calls s) later) ≤ suc n
  unfolding run
  run-bounded P n last later [] s room ps o b = view-bounded n last later s o b
  run-bounded P n last later (c ∷ calls) s room ps o b =
      run-bounded P n (w.instant c) later calls (w.step s c) room ps.1 o.1
        (step-bounded P n last s c room ps.0 o.0 b)

  -- So no window holds more of the instants that were added than the bound.
  pub log-bounded :
      (P : C → Type 0) (n last later : ℕ) (calls : List C) (s : S)
      → HasRoom P n
      → All P calls
      → IsOrdered last calls later
      → Shows last [] s
      → length (w.view s last) ≤ suc n
      → length (trim d later (log calls s)) ≤ suc n
  log-bounded P n last later calls s room ps o v b =
      rw (← view-run last later [] calls s o v) (run-bounded P n last later calls s room ps o b)
