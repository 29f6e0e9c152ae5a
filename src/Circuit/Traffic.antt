-- ===== src/Circuit/Traffic.antt =====
-- How many calls of a session the breaker of pkg/circuit/breaker.go lets through, when calls overlap. The
-- gates ask `Allow` when they admit a call and `Record` it when they charge it, under the mutex each
-- time; between the two the policy judges the call, a person may have to approve it, and any steps of
-- other calls come.
use nullfield.Prelude.{
  ℕ, suc, ◌+◌, ◌-◌, ◌≤◌, ◌≡◌, refl, ◌≢◌, String, Bool, false, List, [], ◌∷◌, none, some, ◌==◌,
  eq_iff, eq_refl, arith, ◌&&◌, if◌then◌else◌, ltb, ℤ, pos,
}
use nullfield.Circuit.{Breaker, within_limits, is_allowed, count_call, record_call, new}

-- A breaker, and how many calls of each session it has admitted that are still under way.
pub record Traffic : Type 0 where
  pub breaker : Breaker
  pub under_way : String → ℕ

-- A call of a session asks to be admitted, is recorded, or leaves without being recorded.
pub data Move : Type 0 where
  asks : String → ℕ → Move
  records : String → ℕ → Move
  leaves : String → Move

abbrev put_at : (String → ℕ) → String → ℕ → String → ℕ
put_at f k n j = if k == j then n else f j

-- Only a call that was admitted is recorded.
unfoldable pub move : Traffic → Move → Traffic
unfolding is_allowed record_call
move t (asks k now) =
    if is_allowed t.breaker k now
    then record t { under_way = put_at t.under_way k (suc (t.under_way k)) }
    else t
move t (records k now) =
    if ltb 0 (t.under_way k)
    then record {
      breaker = record_call t.breaker k now;
      under_way = put_at t.under_way k (t.under_way k - 1);
    }
    else t
move t (leaves k) = record t { under_way = put_at t.under_way k (t.under_way k - 1) }

abbrev pub is_recorded : String → Traffic → Move → Bool
is_recorded id t (records k now) = ltb 0 (t.under_way k) && (k == id)
is_recorded id t (asks k now) = false
is_recorded id t (leaves k) = false

-- How many calls of a session a series of moves records
unfoldable pub recorded : String → List Move → Traffic → ℕ
unfolding move
recorded id [] t = 0
recorded id (m ∷ moves) t =
    let rest = recorded id moves (move t m) in if is_recorded id t m then suc rest else rest

-- Never are more than `w` calls of the session under way at once.
unfoldable pub Overlaps : ℕ → String → List Move → Traffic → Type 0
unfolding move
Overlaps w id [] t = t.under_way id ≤ w
Overlaps w id (m ∷ moves) t = (t.under_way id ≤ w) × Overlaps w id moves (move t m)

abbrev pub quiet : ℕ → ℤ → Traffic
quiet n duration = record { breaker = new (pos (suc n)) duration; under_way = λ k. 0 }

abbrev calls_of : Breaker → String → ℕ
calls_of b id = elim (b.sessions id) [ none ↦ 0 | some s ↦ s.calls ]

-- One move, seen from a named session.
record Moves (n w : ℕ) (id : String) (t t' : Traffic) (is_counted : Bool) : Type 0 where
  limit : t'.breaker.max_calls ≡ pos (suc n)
  bounded : calls_of t'.breaker id + t'.under_way id ≤ n + w
  counted :
      calls_of t'.breaker id
      ≡ (if is_counted then suc (calls_of t.breaker id) else calls_of t.breaker id)

move-Moves :
    (n w : ℕ) (id : String) (t : Traffic) (m : Move)
    → id ≢ ""
    → t.breaker.max_calls ≡ pos (suc n)
    → calls_of t.breaker id + t.under_way id ≤ n + w
    → (move t m).under_way id ≤ w
    → Moves n w id t (move t m) (is_recorded id t m)
unfolding move is_allowed within_limits record_call count_call
move-Moves n w id t (asks k now) named limit bound narrow =
    ground (arith, eq_iff k id, eq_iff k "", eq_iff id "", eq_refl id)
move-Moves n w id t (records k now) named limit bound narrow =
    ground (arith, eq_iff k id, eq_iff k "", eq_iff id "", eq_refl id)
move-Moves n w id t (leaves k) named limit bound narrow = ground (arith, eq_iff k id)

Overlaps-now :
    (w : ℕ) (id : String) (moves : List Move) (t : Traffic)
    → Overlaps w id moves t
    → t.under_way id ≤ w
unfolding Overlaps
Overlaps-now w id [] t o = o
Overlaps-now w id (m ∷ moves) t o = o.0

recorded_bound :
    (n w : ℕ) (id : String) (moves : List Move) (t : Traffic)
    → id ≢ ""
    → t.breaker.max_calls ≡ pos (suc n)
    → calls_of t.breaker id + t.under_way id ≤ n + w
    → Overlaps w id moves t
    → recorded id moves t + calls_of t.breaker id ≤ n + w
unfolding recorded Overlaps
recorded_bound n w id [] t named limit bound o = omega arith
recorded_bound n w id (m ∷ moves) t named limit bound (_, o) =
    let s = move-Moves n w id t m named limit bound (Overlaps-now w id moves (move t m) o) in
    ground (arith, s.counted, recorded_bound n w id moves (move t m) named s.limit s.bounded o)

-- Under a limit of `n + 1` calls, and while at most `w` calls of a named session are under way at
-- once, a breaker that is new records at most `n + w` calls of it: as many as the limit if they come
-- one after the other, and up to `w - 1` more if they overlap; whatever their times are and whatever
-- other sessions do in between. No session is reset or swept meanwhile.
pub recorded-le :
    (n w : ℕ) (duration : ℤ) (id : String) (moves : List Move)
    → id ≢ ""
    → Overlaps w id moves (quiet n duration)
    → recorded id moves (quiet n duration) ≤ n + w
unfolding new
recorded-le n w duration id moves named o =
    omega (arith, recorded_bound n w id moves (quiet n duration) named refl (omega arith) o)
