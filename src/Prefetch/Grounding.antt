-- ===== src/Prefetch/Grounding.antt =====
-- How long the fetched text of src/nixadmin/prefetch.py is, and when there is none.
use text.Mathlib.TextLemmas.{cons-append}
use nixadmin.Prelude.{
  ℕ, suc, ◌-◌, ◌≤◌, ◌≡◌, refl, sym, ap, ◌∙◌, String, ◌<>◌, Bool, true, false, ◌&&◌, map, List, [],
  ◌∷◌, ◌++◌, ◌==◌, string_eq, leb, leb→le, arith, Bool-cases, inl, inr, eq-true,
}
use nixadmin.Prelude.Text.{join, strip, strip-cons, is_space}
use nixadmin.Prelude.Slice.{size, first, size-append, size-first-le}
use nixadmin.Sdk.{Fetcher, Module}
use nixadmin.Prefetch.{
  max_prefetch_chars, Ran, run, marker, truncate, format_result, selected, sections, fetched,
  prefetch,
}

truncate-size-le :
    (t : String) (limit : ℕ) (source : String) → size (truncate t limit source) ≤ limit
unfolding truncate
truncate-size-le t limit source = elim (Bool-cases (leb (size t) limit)) [
  | inl fits ↦ rw fits (leb→le (size t) limit fits)
  | inr long ↦ rw long (elim (Bool-cases (leb limit (size (marker source)))) [
    | inl wide ↦ rw wide (size-first-le limit (marker source))
    | inr narrow ↦ rw narrow (
        ground (
          arith,
          narrow,
          size-append (first (limit - size (marker source)) t) (marker source),
          size-first-le (limit - size (marker source)) t,
        ))
  ])
]

-- A text that begins with "#".
record IsHeaded (t : String) : Type 0 where
  rest : String
  headed : t ≡ String.◌∷◌ "#" rest

append-IsHeaded : (t u : String) → IsHeaded t → IsHeaded (t <> u)
append-IsHeaded t u h = record {
  rest = h.rest <> u;
  headed = ap (λ s. s <> u) h.headed ∙ cons-append "#" h.rest u;
}

first-IsHeaded : (n : ℕ) (t : String) → IsHeaded t → IsHeaded (first (suc n) t)
unfolding first
first-IsHeaded n t h = record { rest = first n h.rest; headed = ap (first (suc n)) h.headed }

format_result-IsHeaded :
    (m : Module) (f : Fetcher) (output : String) → IsHeaded (format_result m f output)
unfolding format_result
format_result-IsHeaded m f output = append-IsHeaded "## " _ (record { rest = "# "; headed = refl })

strip-IsHeaded : (t : String) → IsHeaded t → (strip t == "") ≡ false
strip-IsHeaded t h = elim (Bool-cases (strip t == "")) [
  | inl blank ↦ absurd (
      strip-cons "#" h.rest (unfold is_space in refl)
        (ap strip (sym h.headed) ∙ eq-true (strip t) "" blank))
  | inr full ↦ full
]

truncate-IsHeaded :
    (t : String) → IsHeaded t → IsHeaded (truncate t max_prefetch_chars "prefetch context")
unfolding truncate size
truncate-IsHeaded t h = elim (Bool-cases (leb (size t) max_prefetch_chars)) [
  | inl fits ↦ rw fits h
  | inr long ↦ rw long (append-IsHeaded _ _ (first-IsHeaded _ t h))
]

join-IsHeaded : (sep t : String) (ts : List String) → IsHeaded t → IsHeaded (join sep (t ∷ ts))
unfolding join
join-IsHeaded sep t [] h = h
join-IsHeaded sep t (u ∷ ts) h = append-IsHeaded t _ h

abbrev is_empty : {A : Type 0} → List A → Bool
is_empty [] = true
is_empty (x ∷ xs) = false

-- Whether no module has a fetcher.
unfoldable pub none_fetches : List Module → Bool
none_fetches [] = true
none_fetches (m ∷ ms) = is_empty m.fetchers && none_fetches ms

is_empty-pairs :
    (m : Module) (fs : List Fetcher) (rest : List (Module × Fetcher))
    → is_empty (map (λ (f : Fetcher). (m, f)) fs ++ rest) ≡ (is_empty fs && is_empty rest)
is_empty-pairs m [] rest = refl
is_empty-pairs m (f ∷ fs) rest = refl

is_empty-selected : (ms : List Module) → is_empty (selected ms) ≡ none_fetches ms
unfolding selected none_fetches
is_empty-selected [] = refl
is_empty-selected (m ∷ ms) =
    is_empty-pairs m m.fetchers (selected ms)
    ∙ ap (λ b. is_empty m.fetchers && b) (is_empty-selected ms)

module _ (ran : ℕ → Fetcher → Ran) where
  fetched-IsGrounding :
      (pairs : List (Module × Fetcher))
      → (size (fetched ran pairs) ≤ max_prefetch_chars)
        × ((strip (fetched ran pairs) == "") ≡ is_empty pairs)
  unfolding fetched sections size string_eq
  fetched-IsGrounding [] = (omega arith, unfold strip in refl)
  fetched-IsGrounding ((m, f) ∷ others) = (
    truncate-size-le _ max_prefetch_chars "prefetch context",
    strip-IsHeaded _ (
        truncate-IsHeaded _
          (join-IsHeaded "\n\n" _ _ (format_result-IsHeaded m f (run (ran 0 f))))),
  )

  -- Whatever the commands give, and however they fail: what is fetched has at most 16,000
  -- characters, and it is blank only if no module has a fetcher.
  pub prefetch-IsGrounding :
      (modules : List Module)
      → (size (prefetch ran modules) ≤ max_prefetch_chars)
        × ((strip (prefetch ran modules) == "") ≡ none_fetches modules)
  prefetch-IsGrounding modules =
      let (short, blank) = fetched-IsGrounding (selected modules) in
      (short, blank ∙ is_empty-selected modules)
