-- ===== src/Ledger/Fold.antt =====
-- The loop of `summarize` of src/nixadmin/ledger.py against counts, and the order of the events.
use mathlib.Core.List.{Perm, Permᴰ}
use mathlib.Core.Logic.{∥∥₁_elim}
use nixadmin.Prelude.{
  ℕ, max, min, Bool-cases, inl, inr, ◌-◌, ◌*◌, ◌≡◌, refl, sym, ◌∙◌, ap, Bool, not, ◌&&◌, Option,
  none, some, List, [], ◌∷◌, ltb, ◌==◌, string_eq, length, map, keep, arith,
}
use nixadmin.Store.{Event}
use nixadmin.Ledger.{
  Scan, start, earlier, later, is_attention_moment, is_auto_restart, scan, scan_all, report,
  summarize, day,
}

-- The newest and the oldest of some times.
abbrev pub newest : ℕ → Option ℕ → ℕ
newest t none = t
newest t (some m) = max t m

abbrev pub oldest : ℕ → Option ℕ → ℕ
oldest t none = t
oldest t (some m) = min t m

abbrev pub maximum : List ℕ → Option ℕ
maximum [] = none
maximum (t ∷ ts) = some (newest t (maximum ts))

abbrev pub minimum : List ℕ → Option ℕ
minimum [] = none
minimum (t ∷ ts) = some (oldest t (minimum ts))

pub later-newest : (t : ℕ) (o : Option ℕ) → later t o ≡ some (newest t o)
unfolding later
later-newest t none = refl
later-newest t (some m) = elim (Bool-cases (ltb m t)) [
  | inl e ↦ rw e (ap some (ground (arith, e)))
  | inr e ↦ rw e (ap some (ground (arith, e)))
]

earlier-oldest : (t : ℕ) (o : Option ℕ) → earlier t o ≡ some (oldest t o)
unfolding earlier
earlier-oldest t none = refl
earlier-oldest t (some m) = elim (Bool-cases (ltb t m)) [
  | inl e ↦ rw e (ap some (ground (arith, e)))
  | inr e ↦ rw e (ap some (ground (arith, e)))
]

abbrev pub times : (Event → Bool) → List Event → List ℕ
times p evs = map (λ ev. ev.ts) (keep p evs)

-- How many events from the start of the window on meet a test.
abbrev pub tally : ℕ → (Event → Bool) → List Event → ℕ
tally w p evs = length (keep (λ ev. not (ltb ev.ts w) && p ev) evs)

abbrev pub is_recovery : Event → Bool
is_recovery ev = not (is_auto_restart ev) && ev.kind == "failure_cleared"

later_comm : (a b : ℕ) (o : Option ℕ) → later a (later b o) ≡ later b (later a o)
unfolding later
later_comm a b none = ground arith
later_comm a b (some t) = ground arith

earlier_comm : (a b : ℕ) (o : Option ℕ) → earlier a (earlier b o) ≡ earlier b (earlier a o)
unfolding earlier
earlier_comm a b none = ground arith
earlier_comm a b (some t) = ground arith

-- What a loop over `evs` makes of its variables.
abbrev after : ℕ → Scan → List Event → Scan
after w s [] = s
after w s (ev ∷ evs) = scan w (after w s evs) ev

module _ (w : ℕ) (s : Scan) (a b : Event) where
  scan_comm-last : (scan w (scan w s a) b).last_attention ≡ (scan w (scan w s b) a).last_attention
  unfolding scan
  scan_comm-last = ground (arith, later_comm a.ts b.ts s.last_attention)

  scan_comm-earliest : (scan w (scan w s a) b).earliest_seen ≡ (scan w (scan w s b) a).earliest_seen
  unfolding scan
  scan_comm-earliest = ground (arith, earlier_comm a.ts b.ts s.earliest_seen)

  scan_comm-auto : (scan w (scan w s a) b).auto_restarts ≡ (scan w (scan w s b) a).auto_restarts
  unfolding scan
  scan_comm-auto = ground arith

  scan_comm-recoveries : (scan w (scan w s a) b).recoveries ≡ (scan w (scan w s b) a).recoveries
  unfolding scan
  scan_comm-recoveries = ground arith

  scan_comm-attention : (scan w (scan w s a) b).attention ≡ (scan w (scan w s b) a).attention
  unfolding scan
  scan_comm-attention = ground arith

  scan_comm : scan w (scan w s a) b ≡ scan w (scan w s b) a
  scan_comm = λ i. record {
    last_attention = scan_comm-last i;
    earliest_seen = scan_comm-earliest i;
    auto_restarts = scan_comm-auto i;
    recoveries = scan_comm-recoveries i;
    attention = scan_comm-attention i;
  }

scan_all-scan :
    (w : ℕ) (evs : List Event) (s : Scan) (ev : Event)
    → scan_all w (scan w s ev) evs ≡ scan w (scan_all w s evs) ev
unfolding scan_all
scan_all-scan w [] s ev = refl
scan_all-scan w (x ∷ evs) s ev =
    ap (λ s'. scan_all w s' evs) (scan_comm w s ev x) ∙ scan_all-scan w evs (scan w s x) ev

scan_all-after : (w : ℕ) (evs : List Event) (s : Scan) → scan_all w s evs ≡ after w s evs
unfolding scan_all
scan_all-after w [] s = refl
scan_all-after w (ev ∷ evs) s =
    scan_all-scan w evs s ev ∙ ap (λ s'. scan w s' ev) (scan_all-after w evs s)

-- What the loop should find.
abbrev pub found : ℕ → List Event → Scan
found w evs = record {
  last_attention = maximum (times is_attention_moment evs);
  earliest_seen = minimum (map (λ ev. ev.ts) evs);
  auto_restarts = tally w is_auto_restart evs;
  recoveries = tally w is_recovery evs;
  attention = tally w is_attention_moment evs;
}

scan-found : (w : ℕ) (ev : Event) (evs : List Event) → scan w (found w evs) ev ≡ found w (ev ∷ evs)
unfolding scan
scan-found w ev evs = ground (
  arith,
  later-newest ev.ts (maximum (times is_attention_moment evs)),
  earlier-oldest ev.ts (minimum (map (λ ev. ev.ts) evs)),
)

after-found : (w : ℕ) (evs : List Event) → after w start evs ≡ found w evs
after-found w [] = refl
after-found w (ev ∷ evs) = ap (λ s. scan w s ev) (after-found w evs) ∙ scan-found w ev evs

-- The one pass of the loop finds, in whatever order the events come, the newest attention moment,
-- the oldest event, and the numbers of self-made restarts that stuck, of other recoveries, and of
-- attention moments from the start of the window on.
pub scan_all-found : (w : ℕ) (evs : List Event) → scan_all w start evs ≡ found w evs
scan_all-found w evs = scan_all-after w evs start ∙ after-found w evs

after-Permᴰ : (w : ℕ) (s : Scan) {xs ys : List Event} → Permᴰ xs ys → after w s xs ≡ after w s ys
after-Permᴰ w s Permᴰ.nil = refl
after-Permᴰ w s (Permᴰ.cons e p) = λ i. scan w (after-Permᴰ w s p i) (e i)
after-Permᴰ w s (Permᴰ.swap {a' = a'} {b' = b'} {l = l} e f) =
    (λ i. scan w (scan w (after w s l) (f i)) (e i)) ∙ scan_comm w (after w s l) a' b'
after-Permᴰ w s (Permᴰ.trans p q) = after-Permᴰ w s p ∙ after-Permᴰ w s q

Scan-set : IsSet Scan
Scan-set = hlevel

-- The ledger does not depend on the order in which the events are given.
summarize-Perm :
    (xs ys : List Event) (now failures : ℕ) (earliest : Option ℕ) (window_days : ℕ)
    → Perm xs ys
    → summarize xs now failures earliest window_days
      ≡ summarize ys now failures earliest window_days
unfolding summarize
summarize-Perm xs ys now failures earliest window_days p =
    let w = now - window_days * day in
    ap (report now failures earliest) (
      scan_all-after w xs start
      ∙ ∥∥₁_elim p (Scan-set _ _) (λ q. after-Permᴰ w start q)
      ∙ sym (scan_all-after w ys start))
