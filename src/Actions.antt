-- ===== src/Actions.antt =====
-- `run_app_action` of src/nixadmin/actions.py: an app is installed or removed by an edit of the
-- packages file that is validated apart, confirmed, applied, and taken back if the switch fails.
-- The validation in a worktree, the person, the switch and the rollback are parameters; what they
-- did is kept in a journal, the newest first.
pub mod Editor
pub mod Careful
pub mod Rollback
use nixadmin.Prelude.{
  String, ◌<>◌, Bool, true, false, not, ◌||◌, Option, none, some, List, [], ◌∷◌, ◌==◌, string_eq,
  option_eq, if◌then◌else◌,
}
use nixadmin.Prelude.Result.{Result, ok, err}
use nixadmin.Prelude.Exec.{Exec, pure, raise, modify, gets, ◌>>=◌, ◌>>◌, try◌except◌}
use nixadmin.Actions.Editor.{edit_packages}

-- A `NixadminError` with its text, or anything else that may be raised.
pub data Fault : Type 0 where
  failure : String → Fault
  other : Fault

pub record Host : Type 1 where
  pub World : Type 0
  -- `_validate_in_worktree`, which leaves the file alone
  pub validate : String → Exec World Fault (Bool × String)
  pub suggest : Option (String → Exec World Fault String)
  pub confirm : String → Exec World Fault Bool
  pub switch : Exec World Fault String
  pub rollback : Option (Exec World Fault String)
  -- `_system_generation`
  pub generation : World → Option String

pub data Step : Type 0 where
  told : String → Step
  validated : String → Bool → Step
  agreed : String → Step
  declined : String → Step
  wrote : String → Step
  switched : Bool → Step
  rolled_back : Bool → Step

-- `_system_generation` after a switch against that before it
abbrev changed : Option String → Option String → Bool
changed gen_after gen_before = not (gen_after == gen_before)

abbrev pub rolling_back : String
rolling_back =
    "the rebuild failed mid-activation — rolling the system back to the last working generation…"

abbrev verb : Bool → String
verb add = if add then "install" else "remove"

abbrev past : Bool → String
past add = if add then "installed" else "removed"

module _ (H : Host) where
  open H use {World}

  -- `file` is the text of the packages file, none if there is none.
  pub record Bench : Type 0 where
    pub file : Option String
    pub world : World
    pub journal : List Step

  abbrev pub Run : Type 0 → Type 0
  Run A = Exec Bench Fault A

  abbrev pub log : Step → Run (Unit {0})
  log step = modify (λ b. record b { journal = step ∷ b.journal })

  -- A call of a parameter.
  abbrev pub call : {A : Type 0} → Exec World Fault A → Run A
  call m b = let (r, w) = m b.world in (r, record b { world = w })

  abbrev pub status : String → Run (Unit {0})
  status text = log (told text)

  -- src.write_text(text)
  abbrev pub write_text : String → Run (Unit {0})
  write_text text b = (ok tt, record b { file = some text; journal = wrote text ∷ b.journal })

  abbrev pub note_validation : String → Result Fault (Bool × String) → Run (Bool × String)
  note_validation edited (ok answer) = log (validated edited answer.0) >> pure answer
  note_validation edited (err e) = raise e

  abbrev pub validate : String → Run (Bool × String)
  validate edited b =
      let (r, w) = H.validate edited b.world in note_validation edited r (record b { world = w })

  abbrev pub note_answer : String → Result Fault Bool → Run Bool
  note_answer edited (ok true) = log (agreed edited) >> pure true
  note_answer edited (ok false) = log (declined edited) >> pure false
  note_answer edited (err e) = raise e

  -- The confirmation of an edit.
  abbrev pub confirm : String → String → Run Bool
  confirm edited text b =
      let (r, w) = H.confirm text b.world in note_answer edited r (record b { world = w })

  -- The end of a failed switch, by what became of the rollback.
  abbrev pub note_rollback : String → Result Fault String → Run String
  note_rollback e (ok text) =
      log (rolled_back true)
      >> pure (
          "The rebuild failed partway through, so I rolled the system back "
          <> "to the previous working generation and reverted the config edit. (" <> e <> ")")
  note_rollback e (err (failure re)) =
      log (rolled_back false)
      >> pure (
          "The rebuild failed partway through AND the automatic rollback failed — the system may be in a mixed state. "
          <> "Please roll back manually. (" <> e <> "; rollback: " <> re <> ")")
  note_rollback e (err other) = log (rolled_back false) >> raise other

  -- The rollback of the system, if there is one and a new generation was activated.
  abbrev pub undo : String → Bool → Option (Exec World Fault String) → Run String
  undo e true (some rollback) =
      status rolling_back
      >> (λ b. let (r, w) = rollback b.world in note_rollback e r (record b { world = w }))
  undo e activated others =
      pure
        ("The rebuild failed before anything changed, so I reverted the config edit. (" <> e <> ")")

  -- After a failed switch the file is taken back.
  unfoldable pub recover : String → Option String → String → Run String
  recover original gen_before e = do
    write_text original
    gen_after ← gets (λ b. H.generation b.world)
    undo e (changed gen_after gen_before) H.rollback

  abbrev pub note_switch : Bool → String → String → Option String → Result Fault String → Run String
  note_switch add pkg original gen_before (ok result) =
      log (switched true)
      >> pure (
          "Done — "
          <> pkg
          <> " "
          <> past add
          <> ".\n"
          <> result
          <> "\n(The config edit is left uncommitted for you to review.)")
  note_switch add pkg original gen_before (err (failure e)) =
      log (switched false) >> recover original gen_before e
  note_switch add pkg original gen_before (err other) = log (switched false) >> raise other

  -- The edit is applied and the system switched.
  unfoldable pub apply : Bool → String → String → String → Run String
  apply add pkg original edited = do
    write_text edited
    status "applying the change and rebuilding…"
    gen_before ← gets (λ b. H.generation b.world)
    λ b.
        let (r, w) = H.switch b.world in
        note_switch add pkg original gen_before r (record b { world = w })

  -- What has been found to evaluate: the package, the edit, the diff and the preamble.
  pub record Candidate : Type 0 where
    pub pkg : String
    pub edited : String
    pub diff : String
    pub preamble : String

  -- The answer to the offer of an edit.
  abbrev pub on_answer : Bool → String → Candidate → Bool → Run String
  on_answer add original c true = apply add c.pkg original c.edited
  on_answer add original c false = pure "Cancelled — no changes made."

  abbrev pub question : Bool → Candidate → String
  question add c =
      c.preamble
      <> "This will "
      <> verb add
      <> " "
      <> c.pkg
      <> ":\n\n"
      <> c.diff
      <> "\nApply and rebuild?"

  unfoldable pub offer : Bool → String → String → Option Candidate → Run String
  offer add target original none = pure (
      "I couldn't " <> verb add <> " '" <> target <> "' — it didn't evaluate (is the name right?).")
  offer add target original (some c) =
      confirm c.edited (question add c) >>= on_answer add original c

  -- The judgement of a suggested package's edit.
  abbrev pub judged : String → String → String → Bool × String → Run (Option Candidate)
  judged pkg cand cand_edited (true, diff) = pure (
      some (record {
        pkg = cand;
        edited = cand_edited;
        diff = diff;
        preamble = "I couldn't find '" <> pkg <> "'. Did you mean '" <> cand <> "'?\n\n";
      }))
  judged pkg cand cand_edited (false, diff) = pure none

  -- The edit for a suggested package, if it evaluates.
  unfoldable pub try_edit : String → String → String → Result String String → Run (Option Candidate)
  try_edit pkg cand original (err e) = raise (failure e)
  try_edit pkg cand original (ok cand_edited) =
      if cand_edited == original
      then pure none
      else validate cand_edited >>= judged pkg cand cand_edited

  abbrev pub on_suggestion : String → String → String → Run (Option Candidate)
  on_suggestion pkg original cand =
      if cand == "" || cand == pkg
      then pure none
      else try_edit pkg cand original (edit_packages original cand true)

  -- The recovery of a name that is no package.
  unfoldable pub find_meant :
      String → String → (String → Exec World Fault String) → Run (Option Candidate)
  find_meant pkg original suggest =
      status ("'" <> pkg <> "' isn't a package — figuring out what you meant…")
      >> (call (suggest pkg) >>= on_suggestion pkg original)

  unfoldable pub settle : Bool → String → String → String → Bool × String → Run (Option Candidate)
  settle add pkg original edited (true, diff) =
      pure (some (record { pkg = pkg; edited = edited; diff = diff; preamble = "" }))
  settle true pkg original edited (false, diff) = elim H.suggest [
    | none ↦ pure none
    | some suggest ↦ find_meant pkg original suggest
  ]
  settle false pkg original edited (false, diff) = pure none

  -- What follows the validation of the edit.
  abbrev pub conclude : Bool → String → String → String → Bool × String → Run String
  conclude add pkg original edited answer =
      settle add pkg original edited answer >>= offer add pkg original

  -- The edit is validated, and offered.
  unfoldable pub propose : Bool → String → String → Result String String → Run String
  propose add pkg original (err e) = pure e
  propose add pkg original (ok edited) =
      if edited == original
      then pure (
          pkg
          <> " looks like it's already "
          <> (if add then "installed" else "not installed")
          <> ".")
      else status
          ("checking that " <> pkg <> " " <> (if add then "installs" else "removes") <> " cleanly…")
        >> (validate edited >>= conclude add pkg original edited)

  unfoldable pub on_file : Bool → String → Option String → Run String
  on_file add pkg none = pure "I couldn't find the packages file to edit."
  on_file add pkg (some original) = propose add pkg original (edit_packages original pkg add)

  -- `run_app_action`, with the action's target `pkg`
  unfoldable pub run_app_action : Bool → String → Run String
  run_app_action add pkg b =
      if pkg == "" then (ok "I didn't catch which app you meant.", b) else on_file add pkg b.file b
