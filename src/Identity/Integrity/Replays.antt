-- ===== src/Identity/Integrity/Replays.antt =====
-- What pkg/identity/integrity.go answers to a token identifier that it has seen.
use nullfield.Prelude.{
  ℕ, ◌+◌, ◌≤◌, ◌≡◌, ◌≢◌, String, true, List, [], ◌∷◌, Option, none, some, eq_iff, eq_refl, arith,
  if◌then◌else◌, is_some, ℤ, pos, negsuc, All,
}
use nullfield.Times.{elapsed_gt}
use nullfield.Identity.Integrity.{ReplayDetector, check_replay, sweep_seen}

-- What happens to a detector: an identifier is checked, or expired entries are swept.
pub data ReplayEvent : Type 0 where
  used : String → ℕ → ReplayEvent
  expired_at : ℕ → ReplayEvent

abbrev pub instant_of : ReplayEvent → ℕ
instant_of (used jti now) = now
instant_of (expired_at now) = now

swept_kept :
    (age : ℤ) (found : Option ℕ) (t n now : ℕ)
    → age ≡ pos n
    → found ≡ some t
    → now ≤ t + n
    → (elim found [ none ↦ none | some v ↦ if elapsed_gt now v age then none else some v ]) ≡ some t
swept_kept (pos m) none t n now e f h = absurd (ground arith)
swept_kept (pos m) (some v) t n now e f h = ground arith
swept_kept (negsuc m) found t n now e f h = absurd (ground arith)

module _ (quote : String → String) where
  unfoldable pub replay_step : ReplayDetector → ReplayEvent → ReplayDetector
  replay_step d (used jti now) = (check_replay quote d jti now).0
  replay_step d (expired_at now) = sweep_seen d now

  unfoldable pub replay_run : ReplayDetector → List ReplayEvent → ReplayDetector
  replay_run d [] = d
  replay_run d (e ∷ events) = replay_run (replay_step d e) events

  -- The identifier was seen at `t`, and entries live for `n`.
  abbrev Sees : ReplayDetector → String → ℕ → ℕ → Type 0
  Sees d jti t n = (d.max_age ≡ pos n) × (d.seen jti ≡ some t)

  replay_step-Sees :
      (d : ReplayDetector) (e : ReplayEvent) (jti : String) (t n : ℕ)
      → instant_of e ≤ t + n
      → Sees d jti t n
      → Sees (replay_step d e) jti t n
  unfolding replay_step check_replay sweep_seen
  replay_step-Sees d (used k now) jti t n h (m, s) = (ground arith, ground (arith, eq_iff k jti))
  replay_step-Sees d (expired_at now) jti t n h (m, s) =
      (m, swept_kept d.max_age (d.seen jti) t n now m s h)

  replay_run-Sees :
      (d : ReplayDetector) (events : List ReplayEvent) (jti : String) (t n : ℕ)
      → All (λ e. instant_of e ≤ t + n) events
      → Sees d jti t n
      → Sees (replay_run d events) jti t n
  unfolding replay_run
  replay_run-Sees d [] jti t n h s = s
  replay_run-Sees d (e ∷ events) jti t n (h, hs) s =
      replay_run-Sees (replay_step d e) events jti t n hs (replay_step-Sees d e jti t n h s)

  accepted-Sees :
      (d : ReplayDetector) (jti : String) (t n : ℕ)
      → jti ≢ ""
      → d.max_age ≡ pos n
      → (check_replay quote d jti t).1 ≡ none
      → Sees (check_replay quote d jti t).0 jti t n
  unfolding check_replay
  accepted-Sees d jti t n named m e = (ground arith, ground (arith, eq_iff jti "", eq_refl jti))

  seen-refused :
      (d : ReplayDetector) (jti : String) (t n now : ℕ)
      → jti ≢ ""
      → Sees d jti t n
      → is_some (check_replay quote d jti now).1 ≡ true
  unfolding check_replay
  seen-refused d jti t n now named (m, s) = ground (arith, eq_iff jti "")

  -- A named identifier that was accepted at `t` is refused again, whatever is checked and swept in
  -- between, as long as nothing happens later than the detector's age after `t`.
  pub check_replay-refused :
      (d : ReplayDetector) (jti : String) (t n now : ℕ) (events : List ReplayEvent)
      → jti ≢ ""
      → d.max_age ≡ pos n
      → (check_replay quote d jti t).1 ≡ none
      → All (λ e. instant_of e ≤ t + n) events
      → is_some (check_replay quote (replay_run (check_replay quote d jti t).0 events) jti now).1
        ≡ true
  check_replay-refused d jti t n now events named m e h =
      seen-refused (replay_run (check_replay quote d jti t).0 events) jti t n now named (
        replay_run-Sees (check_replay quote d jti t).0 events jti t n h
          (accepted-Sees d jti t n named m e))
