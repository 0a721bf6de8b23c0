-- ===== src/Actions/Rollback.antt =====
-- What an install or a removal leaves in the packages file, and what has to precede each write.
use nixadmin.Prelude.{
  refl, String, ◌<>◌, Bool, true, false, ◌||◌, Option, none, some, [], ◌∷◌, ◌==◌, string_eq,
  if◌then◌else◌,
}
use nixadmin.Prelude.Result.{Result, ok, err}
use nixadmin.Prelude.Exec.{Exec, pure, ◌>>=◌, ◌>>◌}
use nixadmin.Actions.{
  Fault, failure, Host, told, validated, Bench, status, note_validation, validate, Candidate,
  question, offer, judged, try_edit, on_suggestion, find_meant, settle, conclude, propose, on_file,
  run_app_action,
}
use nixadmin.Actions.Editor.{edit_packages}
use nixadmin.Actions.Careful.{
  IsCalm, IsCalm-IsGood, IsCareful, IsGood, IsReady, IsSettled, answered-IsGood,
}

module _ (H : Host) (original : String) where
  offer-IsGood :
      (add : Bool) (target : String) (c : Option (Candidate H)) (b : Bench H)
      → IsCalm H original b
      → IsReady H original c b
      → IsGood H original (offer H add target original c b)
  unfolding offer
  offer-IsGood add target none b h ready = IsCalm-IsGood H original {A = String} (ok "") b h
  offer-IsGood add target (some c) b h ready =
      let (r, w) = H.confirm (question H add c) b.world in
      answered-IsGood H original add c r b (record b { world = w }) h ready

  -- A suggested package's edit, validated and offered.
  judged-IsGood :
      (add : Bool) (pkg cand edited : String) (r : Result Fault (Bool × String)) (b0 b : Bench H)
      → IsCalm H original b
      → IsGood H original (
          ((λ _. note_validation H edited r b)
              >>= judged H pkg cand edited
              >>= offer H add pkg original)
            b0)
  judged-IsGood add pkg cand edited (ok (true, diff)) b0 b h =
      offer-IsGood add pkg (some _) (record b { journal = validated edited true ∷ b.journal }) h
        (refl, refl)
  judged-IsGood add pkg cand edited (ok (false, diff)) b0 b h =
      offer-IsGood add pkg none (record b { journal = validated edited false ∷ b.journal }) h tt
  judged-IsGood add pkg cand edited (err e) b0 b h =
      IsCalm-IsGood H original {A = String} (err e) b h

  tried-IsGood :
      (add : Bool) (pkg cand : String) (r : Result String String) (b : Bench H)
      → IsCalm H original b
      → IsGood H original ((try_edit H pkg cand original r >>= offer H add pkg original) b)
  unfolding try_edit
  tried-IsGood add pkg cand (err e) b h =
      IsCalm-IsGood H original {A = String} (err (failure e)) b h
  tried-IsGood add pkg cand (ok edited) b h = same (edited == original)
    where
      same :
          (c : Bool)
          → IsGood H original (
              ((if c then pure none else validate H edited >>= judged H pkg cand edited)
                  >>= offer H add pkg original)
                b)
      same true = offer-IsGood add pkg none b h tt
      same false =
          let (r, w) = H.validate edited b.world in
          judged-IsGood add pkg cand edited r b (record b { world = w }) h

  suggested-IsGood :
      (add : Bool) (pkg : String) (r : Result Fault String) (b0 b : Bench H)
      → IsCalm H original b
      → IsGood H original
          (((λ _. (r, b)) >>= on_suggestion H pkg original >>= offer H add pkg original) b0)
  suggested-IsGood add pkg (ok cand) b0 b h = known (cand == "" || cand == pkg)
    where
      known :
          (c : Bool)
          → IsGood H original (
              ((if c
                    then pure none
                    else try_edit H pkg cand original (edit_packages original cand true))
                  >>= offer H add pkg original)
                b)
      known true = offer-IsGood add pkg none b h tt
      known false = tried-IsGood add pkg cand (edit_packages original cand true) b h
  suggested-IsGood add pkg (err e) b0 b h = IsCalm-IsGood H original {A = String} (err e) b h

  meant-IsGood :
      (pkg : String) (suggest : Option (String → Exec H.World Fault String)) (b : Bench H)
      → IsCalm H original b
      → IsGood H original (
          ((elim suggest [ none ↦ pure none | some ask ↦ find_meant H pkg original ask ])
              >>= offer H true pkg original)
            b)
  unfolding find_meant
  meant-IsGood pkg none b h = offer-IsGood true pkg none b h tt
  meant-IsGood pkg (some ask) b h =
      let (r, w) = ask pkg b.world in
      suggested-IsGood true pkg r b (record b { world = w; journal = told _ ∷ b.journal }) h

  conclude-IsGood :
      (add : Bool) (pkg edited : String) (answer : Bool × String) (b : Bench H)
      → IsCalm H original b
      → IsGood H original (
          conclude H add pkg original edited answer
            (record b { journal = validated edited answer.0 ∷ b.journal }))
  unfolding settle
  conclude-IsGood add pkg edited (true, diff) b h = offer-IsGood add pkg (some _) _ h (refl, refl)
  conclude-IsGood true pkg edited (false, diff) b h =
      meant-IsGood pkg H.suggest (record b { journal = validated edited false ∷ b.journal }) h
  conclude-IsGood false pkg edited (false, diff) b h = offer-IsGood false pkg none _ h tt

  validated-IsGood :
      (add : Bool) (pkg edited : String) (r : Result Fault (Bool × String)) (b0 b : Bench H)
      → IsCalm H original b
      → IsGood H original
          (((λ _. note_validation H edited r b) >>= conclude H add pkg original edited) b0)
  validated-IsGood add pkg edited (ok answer) b0 b h = conclude-IsGood add pkg edited answer b h
  validated-IsGood add pkg edited (err e) b0 b h = IsCalm-IsGood H original {A = String} (err e) b h

  propose-IsGood :
      (add : Bool) (pkg : String) (r : Result String String) (b : Bench H)
      → IsCalm H original b
      → IsGood H original (propose H add pkg original r b)
  unfolding propose
  propose-IsGood add pkg (err e) b h = IsCalm-IsGood H original (ok e) b h
  propose-IsGood add pkg (ok edited) b h = same (edited == original)
    where
      same :
          (c : Bool)
          → IsGood H original (
              (if c
                  then pure (
                      pkg
                      <> " looks like it's already "
                      <> (if add then "installed" else "not installed")
                      <> ".")
                  else status H (
                      "checking that "
                      <> pkg
                      <> " "
                      <> (if add then "installs" else "removes")
                      <> " cleanly…")
                    >> (validate H edited >>= conclude H add pkg original edited))
                b)
      same true = IsCalm-IsGood H original {A = String} (ok "") b h
      same false =
          let (r, w) = H.validate edited b.world in
          validated-IsGood add pkg edited r b (record b { world = w; journal = told _ ∷ b.journal })
            h

  -- Before an action: the file holds the original, and nothing was done.
  abbrev pub untouched : H.World → Bench H
  untouched w = record { file = some original; world = w; journal = [] }

  run_app_action-IsGood :
      (add : Bool) (pkg : String) (w : H.World)
      → IsGood H original (run_app_action H add pkg (untouched w))
  unfolding run_app_action on_file
  run_app_action-IsGood add pkg w = named (pkg == "")
    where
      named :
          (c : Bool)
          → IsGood H original (
              if c
              then (ok "I didn't catch which app you meant.", untouched w)
              else on_file H add pkg (some original) (untouched w))
      named true = IsCalm-IsGood H original {A = String} (ok "") (untouched w) (refl, refl, tt)
      named false =
          propose-IsGood add pkg (edit_packages original pkg add) (untouched w) (refl, refl, tt)

  -- However an install or a removal ends, unless by an exception that is no `NixadminError`, and
  -- whatever the validation, the person, the suggestion, the switch and the rollback do: the
  -- packages file holds the edit that the person agreed to if the switch succeeded, and the
  -- original text in every other case.
  pub run_app_action-IsSettled :
      (add : Bool) (pkg : String) (w : H.World)
      → IsSettled H original (run_app_action H add pkg (untouched w))
  run_app_action-IsSettled add pkg w = (run_app_action-IsGood add pkg w).0

  -- In every run of an install or a removal, those that end in an exception included: an edit is
  -- written only right after the person agreed to that edit and it was found to evaluate just before
  -- being shown, the original is written back only right after a failed switch, and the system is
  -- rolled back only after the file was taken back.
  pub run_app_action-IsCareful :
      (add : Bool) (pkg : String) (w : H.World)
      → IsCareful original (run_app_action H add pkg (untouched w)).1.journal
  run_app_action-IsCareful add pkg w = (run_app_action-IsGood add pkg w).1
