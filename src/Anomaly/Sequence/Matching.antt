-- ===== src/Anomaly/Sequence/Matching.antt =====
-- What the greedy scan of pkg/anomaly/sequence.go decides.
use nullfield.Prelude.{
  ◌≤◌, ◌≡◌, refl, ap, ◌≢◌, ◌↔◌, inl, inr, String, true, List, [], ◌∷◌, ◌++◌, Option, none, some,
  ◌==◌, eq_iff, arith, length, is_empty, Bool-cases, All, length-keep_last-le,
}
use nullfield.Anomaly.Sequence.{
  SequencePattern, SequenceAlert, SequenceTracker, scan, matches_sequence, first_match, extended,
  record_call,
}

-- `Within pattern history`: the pattern's tools stand in the history in their order.
pub data Within : List String → List String → Type 0 where
  done : {h : List String} → Within [] h
  skip : {p h : List String} (t : String) → Within p h → Within p (t ∷ h)
  take : {p h : List String} {u t : String} → t ≡ u → Within p h → Within (u ∷ p) (t ∷ h)

Within-tail : {u : String} {p h : List String} → Within (u ∷ p) h → Within p h
Within-tail (skip t w) = skip t (Within-tail w)
Within-tail (take {t = t} e w) = skip t w

Within-length : {p h : List String} → Within p h → length p ≤ length h
Within-length done = omega arith
Within-length (skip t w) = omega (arith, Within-length w)
Within-length (take e w) = omega (arith, Within-length w)

scan_sound : (h p : List String) → scan h p ≡ true → Within p h
unfolding scan
scan_sound [] [] e = done
scan_sound [] (u ∷ p) e = cc
scan_sound (t ∷ h) [] e = done
scan_sound (t ∷ h) (u ∷ p) e = elim (Bool-cases (t == u)) [
  | inl same ↦ take ((eq_iff t u).0 same) (scan_sound h p (rw same at e))
  | inr other ↦ skip t (scan_sound h (u ∷ p) (rw other at e))
]

-- Taking the first chance is never a mistake.
scan_complete : (h p : List String) → Within p h → scan h p ≡ true
unfolding scan
scan_complete [] [] w = refl
scan_complete [] (u ∷ p) w = absurd (omega (arith, Within-length w))
scan_complete (t ∷ h) [] w = refl
scan_complete (t ∷ h) (u ∷ p) w = elim (Bool-cases (t == u)) [
  | inl same ↦ rw same (scan_complete h p (later w))
  | inr other ↦ rw other (scan_complete h (u ∷ p) (skipped w (λ e. cc ((eq_iff t u).1 e))))
]
  where
    later : {t' u' : String} {h' p' : List String} → Within (u' ∷ p') (t' ∷ h') → Within p' h'
    later (skip t' v) = Within-tail v
    later (take e v) = v

    skipped :
        {t' u' : String} {h' p' : List String}
        → Within (u' ∷ p') (t' ∷ h')
        → t' ≢ u'
        → Within (u' ∷ p') h'
    skipped (skip t' v) n = v
    skipped (take e v) n = absurd (n e)

-- A pattern matches a history exactly if it is not empty and its tools stand there in order.
pub matches_sequence_iff :
    (history pattern' : List String)
    → (matches_sequence history pattern' ≡ true) ↔ ((pattern' ≢ []) × Within pattern' history)
unfolding matches_sequence
matches_sequence_iff history [] = ((λ h. cc), λ h. absurd (h.0 refl))
matches_sequence_iff history (u ∷ p) = (
  (λ h. ((λ e. cc), scan_sound history (u ∷ p) (ground arith))),
  λ h. ground (arith, scan_complete history (u ∷ p) h.1, Within-length h.1),
)

-- No pattern of the list matches, or the first that does gives the alert.
abbrev pub Alerts : List SequencePattern → List String → Option SequenceAlert → Type 0
Alerts patterns history none = All (λ p. ¬ ((p.tools ≢ []) × Within p.tools history)) patterns
Alerts patterns history (some a) =
    (before : List SequencePattern) × (p : SequencePattern) × (after : List SequencePattern)
    × (patterns ≡ before ++ p ∷ after)
    × All (λ q. ¬ ((q.tools ≢ []) × Within q.tools history)) before
    × Within p.tools history
    × (a.pattern ≡ p.name)
    × (a.tools ≡ p.tools)

first_match-Alerts :
    (patterns : List SequencePattern) (history : List String) (session identity : String)
    → Alerts patterns history (first_match patterns history session identity)
unfolding first_match
first_match-Alerts [] history session identity = tt
first_match-Alerts (p ∷ patterns) history session identity =
    elim (Bool-cases (matches_sequence history p.tools)) [
      | inl hit ↦
          rw hit (
            [],
            p,
            patterns,
            refl,
            tt,
            ((matches_sequence_iff history p.tools).0 hit).1,
            refl,
            refl,
          )
      | inr miss ↦ rw miss (
          further _ (first_match-Alerts patterns history session identity)
            (λ h. cc ((matches_sequence_iff history p.tools).1 h)))
    ]
  where
    further :
        (o : Option SequenceAlert)
        → Alerts patterns history o
        → ¬ ((p.tools ≢ []) × Within p.tools history)
        → Alerts (p ∷ patterns) history o
    further none h n = (n, h)
    further (some a) (before, q, after, e, passed, w, same_name, same_tools) n =
        (p ∷ before, q, after, ap (◌∷◌ p) e, (n, passed), w, same_name, same_tools)

record_call-first_match :
    (t : SequenceTracker) (session tool identity : String) (patterns : List SequencePattern)
    → session ≢ ""
    → t.patterns ≡ patterns
    → (record_call t session tool identity).1
      ≡ first_match patterns (extended t session tool) session identity
unfolding record_call first_match
record_call-first_match t session tool identity [] named e = ground (arith, eq_iff session "")
record_call-first_match t session tool identity (p ∷ patterns) named e =
    ground (arith, eq_iff session "", ap is_empty e)

-- A recorded call alerts for the first pattern whose tools stand in order in the history that ends
-- with it, or for none if there is no such pattern; and no history outgrows its bound.
pub record_call-Alerts :
    (t : SequenceTracker) (session tool identity : String)
    → session ≢ ""
    → Alerts t.patterns (extended t session tool) (record_call t session tool identity).1
      × (length (extended t session tool) ≤ t.max_hist)
unfolding extended
record_call-Alerts t session tool identity named = (
  rw (record_call-first_match t session tool identity t.patterns named refl)
      (first_match-Alerts t.patterns (extended t session tool) session identity),
  length-keep_last-le t.max_hist _,
)
