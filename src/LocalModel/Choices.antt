-- ===== src/LocalModel/Choices.antt =====
-- What the replies of the local model can lead to, in src/nixadmin/llm/local.py.
use nixadmin.Prelude.{
  ◌≡◌, ◌≢◌, refl, String, true, false, not, ◌||◌, Option, none, some, List, [], ◌∷◌, ◌==◌, contains,
  string_eq, map, arith, Bool-cases, ◌⊎◌, inl, inr,
}
use nixadmin.Prelude.Case.{lower}
use nixadmin.Prelude.Text.{strip}
use nixadmin.Prelude.Words.{is_in}
use nixadmin.LocalModel.{
  Ollama, find_exact, find_within, or_within, choose, judged, rewritten, judge_package,
  redact_rewrite, fuzzy_candidates, suggest_package,
}

-- A candidate that is found is one of them, and an exact one has the name that was asked for.
abbrev FoundExact : String → List String → Option String → Type 0
FoundExact reply cs none = contains (map lower cs) reply ≡ false
FoundExact reply cs (some c) = (contains cs c ≡ true) × ((lower c == reply) ≡ true)

abbrev FoundWithin : List String → Option String → Type 0
FoundWithin cs none = Unit
FoundWithin cs (some c) = contains cs c ≡ true

later-FoundExact :
    (reply c : String) (cs : List String) (o : Option String)
    → (lower c == reply) ≡ false
    → FoundExact reply cs o
    → FoundExact reply (c ∷ cs) o
later-FoundExact reply c cs none n h = ground (arith, n, h)
later-FoundExact reply c cs (some d) n h = (ground (arith, h.0), h.1)

later-FoundWithin :
    (c : String) (cs : List String) (o : Option String) → FoundWithin cs o → FoundWithin (c ∷ cs) o
later-FoundWithin c cs none h = tt
later-FoundWithin c cs (some d) h = ground (arith, h)

find_exact-Found : (reply : String) (cs : List String) → FoundExact reply cs (find_exact reply cs)
unfolding find_exact
find_exact-Found reply [] = refl
find_exact-Found reply (c ∷ cs) = elim (Bool-cases (lower c == reply)) [
  | inl same ↦ rw same (ground arith, same)
  | inr differ ↦ rw differ (later-FoundExact reply c cs _ differ (find_exact-Found reply cs))
]

find_within-Found : (reply : String) (cs : List String) → FoundWithin cs (find_within reply cs)
unfolding find_within
find_within-Found reply [] = tt
find_within-Found reply (c ∷ cs) = elim (Bool-cases (is_in (lower c) reply)) [
  | inl there ↦ rw there (ground arith)
  | inr absent ↦ rw absent (later-FoundWithin c cs _ (find_within-Found reply cs))
]

-- A choice: none, or a candidate; and if the reply is a candidate's name, a candidate of that name.
pub record IsChoice (candidates : List String) (reply choice : String) : Type 0 where
  pub real : (choice ≡ "") ⊎ (contains candidates choice ≡ true)
  pub exact : (not (contains (map lower candidates) reply) || lower choice == reply) ≡ true

choose-IsChoice :
    (candidates : List String) (reply : String)
    → IsChoice candidates reply (choose candidates reply)
unfolding choose
choose-IsChoice candidates reply =
    pick (find_exact reply candidates) (find_within reply candidates)
      (find_exact-Found reply candidates) (find_within-Found reply candidates)
  where
    pick :
        (e i : Option String)
        → FoundExact reply candidates e
        → FoundWithin candidates i
        → IsChoice candidates reply (or_within e i)
    pick (some c) i he hi = record { real = inr he.0; exact = ground (arith, he.1) }
    pick none (some c) he hi = record { real = inr hi; exact = ground (arith, he) }
    pick none none he hi = record { real = inl refl; exact = ground (arith, he) }

module _ (O : Ollama) where
  judged-IsReal :
      (candidates : List String) (reply : Option String)
      → (judged O candidates reply ≡ "") ⊎ (contains candidates (judged O candidates reply) ≡ true)
  judged-IsReal candidates none = inl refl
  judged-IsReal candidates (some reply) = (choose-IsChoice candidates (lower (strip reply))).real

  judge_package-IsReal :
      (query : String) (candidates : List String) (w : O.World)
      → ((judge_package O query candidates w).0 ≡ "")
        ⊎ (contains candidates (judge_package O query candidates w).0 ≡ true)
  unfolding judge_package
  judge_package-IsReal query [] w = inl refl
  judge_package-IsReal query (c ∷ cs) w = judged-IsReal (c ∷ cs) _

  -- If the nearest names are among those given, then a package is suggested only if it is one of the
  -- names of nixpkgs, whatever the local model replies and whether it can be reached.
  pub suggest_package-IsReal :
      (phrase : String) (names : List String) (w : O.World)
      → ((q : String) (ns : List String) (c : String)
          → contains (O.nearest q ns) c ≡ true
          → contains ns c ≡ true)
      → ((suggest_package O phrase names w).0 ≡ "")
        ⊎ (contains names (suggest_package O phrase names w).0 ≡ true)
  unfolding suggest_package fuzzy_candidates
  suggest_package-IsReal phrase names w near =
      elim (judge_package-IsReal phrase (O.nearest (lower phrase) names) w) [
        | inl nothing ↦ inl nothing
        | inr real ↦ inr (near (lower phrase) names _ real)
      ]

  rewritten-ne-nil : (t : String) (reply : Option String) → t ≢ "" → rewritten O t reply ≢ ""
  rewritten-ne-nil t none h = h
  rewritten-ne-nil t (some reply) h = elim (Bool-cases (strip reply == "")) [
    | inl empty ↦ rw empty h
    | inr full ↦ rw full (λ e. ground (arith, full, e))
  ]

  -- A text is rewritten to nothing only if it is nothing.
  redact_rewrite-ne-nil : (t : String) (w : O.World) → t ≢ "" → (redact_rewrite O t w).0 ≢ ""
  unfolding redact_rewrite
  redact_rewrite-ne-nil t w h = rewritten-ne-nil t _ h
