-- ===== src/Ledger/Streak.antt =====
-- The streak of src/nixadmin/ledger.py against the events and the failures of the moment.
use nixadmin.Prelude.{
  ℕ, max, ◌*◌, ◌-◌, ◌≤◌, ◌≡◌, ◌≢◌, refl, Bool, true, Option, none, some, List, [], ◌∷◌, eqb, keep,
  All, Bool-cases, Option-cases, inl, inr, ◌⊎◌, arith,
}
use mathlib.Core.Option.{some-ne-none}
use native.Mathlib.Nat.{le_trans}
use nixadmin.Store.{Event}
use nixadmin.Ledger.{is_attention_moment, days_since, report, summarize, streak}
use nixadmin.Ledger.Fold.{newest, maximum, times, scan_all-found}

days_since_mono : (now a b : ℕ) → a ≤ b → days_since now b ≤ days_since now a
unfolding days_since
days_since_mono now a b h = omega arith

newest_bounds :
    (t n : ℕ) (o : Option ℕ)
    → ((m : ℕ) → some (newest t o) ≡ some m → m ≤ n)
    → (t ≤ n) × ((m : ℕ) → o ≡ some m → m ≤ n)
newest_bounds t n none h = (h t refl, λ m e. cc)
newest_bounds t n (some k) h =
    let bound = h (max t k) refl in (omega (arith, bound), λ m e. ground (arith, bound, e))

-- A bound of the newest attention moment bounds them all.
attention-le :
    (evs : List Event) (n : ℕ)
    → ((m : ℕ) → maximum (times is_attention_moment evs) ≡ some m → m ≤ n)
    → All (λ ev. is_attention_moment ev ≡ true → ev.ts ≤ n) evs
attention-le [] n h = tt
attention-le (ev ∷ evs) n h = elim (Bool-cases (is_attention_moment ev)) [
  | inl e ↦
      let parts =
        newest_bounds ev.ts n (maximum (times is_attention_moment evs)) (rw (e, keep) at h) in
      (λ _. parts.0, attention-le evs n parts.1)
  | inr e ↦ (λ e'. cc, attention-le evs n (rw (e, keep) at h))
]

All-map :
    {P Q : Event → Type 0} (evs : List Event) → ((ev : Event) → P ev → Q ev) → All P evs → All Q evs
All-map [] f h = tt
All-map (ev ∷ evs) f h = (f ev h.0, All-map evs f h.1)

-- The streak that follows from the newest attention moment.
streak-le :
    (now m failures : ℕ) (floor : Option ℕ)
    → (streak now (eqb failures 0) (some m) floor).1 ≤ days_since now m
unfolding streak
streak-le now m failures floor = ground arith

no_attention :
    (evs : List Event)
    → maximum (times is_attention_moment evs) ≡ none
    → All (λ ev. is_attention_moment ev ≡ true → ⊥) evs
no_attention [] e = tt
no_attention (ev ∷ evs) e = elim (Bool-cases (is_attention_moment ev)) [
  | inl a ↦
      absurd
        (some-ne-none (newest ev.ts (maximum (times is_attention_moment evs))) (rw (a, keep) at e))
  | inr a ↦ (λ e'. cc, no_attention evs (rw (a, keep) at e))
]

streak-failing :
    (now failures : ℕ) (last floor : Option ℕ)
    → failures ≢ 0
    → (streak now (eqb failures 0) last floor).1 ≡ 0
unfolding streak
streak-failing now failures last floor h = ground arith

keep-met :
    (P : Event → Type 0) (p : Event → Bool) (evs : List Event)
    → All (λ ev. p ev ≡ true → P ev) evs
    → All P (keep p evs)
keep-met P p [] h = tt
keep-met P p (ev ∷ evs) h = elim (Bool-cases (p ev)) [
  | inl e ↦ rw (e, keep) (h.0 e, keep-met P p evs h.1)
  | inr e ↦ rw (e, keep) (keep-met P p evs h.1)
]

days_since-le : (now t : ℕ) → days_since now t * 86_400_000_000 ≤ now - t
unfolding days_since
days_since-le now t = omega arith

whole_days : (now t n : ℕ) → n ≤ days_since now t → n * 86_400_000_000 ≤ now - t
whole_days now t n h = omega (arith, h, days_since-le now t)

-- However the events are ordered, however far back they reach and whatever floor is given: no
-- attention moment among the events is less than the streak's days ago, at 86,400,000,000
-- microseconds a day; and while a unit is failing there is no streak.
pub streak_honest :
    (evs : List Event) (now failures : ℕ) (earliest : Option ℕ) (window_days : ℕ)
    → let days = (summarize evs now failures earliest window_days).streak_days in
      All (λ ev. days * 86_400_000_000 ≤ now - ev.ts) (keep is_attention_moment evs)
      × ((failures ≡ 0) ⊎ (days ≡ 0))
unfolding summarize report
streak_honest evs now failures earliest window_days =
    let last = maximum (times is_attention_moment evs) in
    (
      keep-met _ is_attention_moment evs (
          rw scan_all-found (elim (Option-cases last) [
            | inl e ↦ All-map evs (λ ev h a. absurd (h a)) (no_attention evs e)
            | inr (m, e) ↦
                All-map evs
                  (λ ev h a. rw e (
                    whole_days now ev.ts _
                      (le_trans (streak-le now m failures _) (days_since_mono now ev.ts m (h a)))))
                  (attention-le evs m (λ k e'. ground (arith, e, e')))
          ])),
      elim (Bool-cases (eqb failures 0)) [
        | inl none_fails ↦ inl (ground (arith, none_fails))
        | inr fails ↦ inr (streak-failing now failures _ _ (λ e. ground (arith, fails, e)))
      ],
    )
