-- ===== src/Actions/Careful.antt =====
-- What has to precede each write of the packages file in src/nixadmin/actions.py, and the steps of
-- an install or a removal that hold to it.
use nixadmin.Prelude.{
  ◌≡◌, refl, ◌∙◌, ◌⊎◌, inl, inr, String, Bool, true, false, Option, none, some, List, [], ◌∷◌,
  string_eq, if◌then◌else◌,
}
use nixadmin.Prelude.Result.{Result, ok, err}
use nixadmin.Prelude.Exec.{Exec, ◌>>=◌}
use nixadmin.Actions.{
  rolling_back, Fault, failure, other, Host, Step, told, validated, agreed, declined, wrote,
  switched, rolled_back, Bench, note_answer, note_rollback, undo, recover, note_switch, apply,
  Candidate, on_answer,
}

-- Whether the newest switch succeeded.
abbrev pub is_applied : List Step → Bool
is_applied [] = false
is_applied (switched good ∷ j) = good
is_applied (s ∷ j) = is_applied j

-- The edit that was agreed to last.
abbrev pub consented : List Step → String
consented [] = ""
consented (agreed edited ∷ j) = edited
consented (s ∷ j) = consented j

-- The newest step found that this edit evaluates.
abbrev pub IsChecked : String → List Step → Type 0
IsChecked edited (validated text good ∷ j) = (text ≡ edited) × (good ≡ true)
IsChecked edited j = ⊥

-- The newest step agreed to this edit, right after it was found to evaluate.
abbrev pub IsAgreed : String → List Step → Type 0
IsAgreed edited (agreed text ∷ j) = (text ≡ edited) × IsChecked edited j
IsAgreed edited j = ⊥

-- The newest step is a switch that failed.
abbrev pub IsFailed : List Step → Type 0
IsFailed (switched good ∷ j) = good ≡ false
IsFailed j = ⊥

-- The newest steps took the file back after a failed switch, and said so.
abbrev pub IsTakenBack : String → List Step → Type 0
IsTakenBack original (told note ∷ wrote text ∷ j) = (text ≡ original) × IsFailed j
IsTakenBack original j = ⊥

-- Each write of the file is either that of an edit that was agreed to right after it was found to
-- evaluate, or takes the original back right after a failed switch; and each rollback of the system
-- follows such a taking back.
abbrev pub IsCareful : String → List Step → Type 0
IsCareful original [] = Unit
IsCareful original (wrote text ∷ j) =
    (IsAgreed text j ⊎ ((text ≡ original) × IsFailed j)) × IsCareful original j
IsCareful original (rolled_back good ∷ j) = IsTakenBack original j × IsCareful original j
IsCareful original (s ∷ j) = IsCareful original j

module _ (H : Host) (original : String) where
  -- Nothing was applied yet.
  abbrev pub IsCalm : Bench H → Type 0
  IsCalm b =
      (b.file ≡ some original) × (is_applied b.journal ≡ false) × IsCareful original b.journal

  -- The file holds the edit that was agreed to if the switch succeeded, and else the original.
  abbrev pub IsKept : Bench H → Type 0
  IsKept b = b.file ≡ some (if is_applied b.journal then consented b.journal else original)

  -- An end, of any kind but an exception other than a `NixadminError`.
  abbrev pub IsSettled : {A : Type 0} → Result Fault A × Bench H → Type 0
  IsSettled (ok a, b) = IsKept b
  IsSettled (err (failure text), b) = IsKept b
  IsSettled (err other, b) = Unit

  abbrev pub IsGood : {A : Type 0} → Result Fault A × Bench H → Type 0
  IsGood x = IsSettled x × IsCareful original x.1.journal

  pub IsCalm-IsKept : (b : Bench H) → IsCalm b → IsKept b
  IsCalm-IsKept b (same, off, careful) = rw off same

  pub IsCalm-IsGood : {A : Type 0} (r : Result Fault A) (b : Bench H) → IsCalm b → IsGood (r, b)
  IsCalm-IsGood (ok a) b h = (IsCalm-IsKept b h, h.2)
  IsCalm-IsGood (err (failure text)) b h = (IsCalm-IsKept b h, h.2)
  IsCalm-IsGood (err other) b h = (tt, h.2)

  -- A failed switch, with the file taken back.
  pub rollback-IsGood :
      (r : Result Fault String) (e : String) (b : Bench H)
      → IsCalm b
      → IsTakenBack original b.journal
      → IsGood (note_rollback H e r b)
  rollback-IsGood (ok result) e b h back = (rw (h.1) h.0, (back, h.2))
  rollback-IsGood (err (failure re)) e b h back = (rw (h.1) h.0, (back, h.2))
  rollback-IsGood (err other) e b h back = (tt, (back, h.2))

  pub undo-IsGood :
      (e : String) (activated : Bool) (rollback : Option (Exec H.World Fault String)) (b : Bench H)
      → IsCalm b
      → ((note : String) → IsTakenBack original (told note ∷ b.journal))
      → IsGood (undo H e activated rollback b)
  undo-IsGood e true (some rollback) b h back =
      let (r, w) = rollback b.world in
      rollback-IsGood r e (record b { world = w; journal = told rolling_back ∷ b.journal }) h
        (back rolling_back)
  undo-IsGood e true none b h back = IsCalm-IsGood {A = String} (ok "") b h
  undo-IsGood e false rollback b h back = IsCalm-IsGood {A = String} (ok "") b h

  pub switched-IsGood :
      (add : Bool) (pkg edited : String) (gen_before : Option String) (r : Result Fault String)
      (b : Bench H)
      → b.file ≡ some edited
      → consented b.journal ≡ edited
      → IsCareful original b.journal
      → IsGood (note_switch H add pkg original gen_before r b)
  unfolding recover
  switched-IsGood add pkg edited gen_before (ok result) b wrote_ agreed_ careful =
      (wrote_ ∙ rw agreed_ refl, careful)
  switched-IsGood add pkg edited gen_before (err (failure e)) b wrote_ agreed_ careful =
      undo-IsGood e _ H.rollback
        (record b { file = some original; journal = wrote original ∷ switched false ∷ b.journal })
        (refl, refl, (inr (refl, refl), careful)) (λ note. (refl, refl))
  switched-IsGood add pkg edited gen_before (err other) b wrote_ agreed_ careful = (tt, careful)

  pub apply-IsGood :
      (add : Bool) (pkg edited : String) (b : Bench H)
      → IsCalm b
      → IsAgreed edited b.journal
      → consented b.journal ≡ edited
      → IsGood (apply H add pkg original edited b)
  unfolding apply
  apply-IsGood add pkg edited b h yes_ same =
      let (r, w) = H.switch b.world in
      switched-IsGood add pkg edited (H.generation b.world) r
        (record {
          file = some edited;
          world = w;
          journal = told "applying the change and rebuilding…" ∷ wrote edited ∷ b.journal;
        })
        refl same (inl yes_, h.2)

  pub answered-IsGood :
      (add : Bool) (c : Candidate H) (r : Result Fault Bool) (b0 b : Bench H)
      → IsCalm b
      → IsChecked c.edited b.journal
      → IsGood (((λ _. note_answer H c.edited r b) >>= on_answer H add original c) b0)
  answered-IsGood add c (ok true) b0 b h checked =
      apply-IsGood add c.pkg c.edited (record b { journal = agreed c.edited ∷ b.journal }) h
        (refl, checked) refl
  answered-IsGood add c (ok false) b0 b h checked =
      IsCalm-IsGood {A = String} (ok "") (record b { journal = declined c.edited ∷ b.journal }) h
  answered-IsGood add c (err e) b0 b h checked = IsCalm-IsGood {A = String} (err e) b h

  -- What a candidate has to have behind it.
  abbrev pub IsReady : Option (Candidate H) → Bench H → Type 0
  IsReady none b = Unit
  IsReady (some c) b = IsChecked c.edited b.journal
