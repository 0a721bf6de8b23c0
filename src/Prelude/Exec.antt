-- ===== src/Prelude/Exec.antt =====
-- Calls that change a state and may raise: what was done before the raise stays done.
use nixadmin.Prelude.Result.{Result, ok, err}

abbrev pub Exec : Type 0 → Type 0 → Type 0 → Type 0
Exec S E A = S → Result E A × S

module _ {S E A : Type 0} where
  abbrev pub pure : A → Exec S E A
  pure a s = (ok a, s)

  abbrev pub raise : E → Exec S E A
  raise e s = (err e, s)

  abbrev pub lift : Result E A → Exec S E A
  lift r s = (r, s)

  abbrev pub gets : (S → A) → Exec S E A
  gets f s = (ok (f s), s)

abbrev pub modify : {S E : Type 0} → (S → S) → Exec S E (Unit {0})
modify f s = (ok tt, f s)

module _ {S E A B : Type 0} where
  abbrev pub continue : Result E A → (A → Exec S E B) → Exec S E B
  continue (ok a) f s = f a s
  continue (err e) f s = (err e, s)

  infixl 10 ◌>>=◌ ◌>>◌
  abbrev pub ◌>>=◌ : Exec S E A → (A → Exec S E B) → Exec S E B
  ◌>>=◌ m f s = let (r, s') = m s in continue r f s'

  abbrev pub ◌>>◌ : Exec S E A → Exec S E B → Exec S E B
  ◌>>◌ m n s = let (r, s') = m s in continue r (λ _. n) s'

  -- try: m except e: handler(e)
  abbrev pub handle : Result E A → (E → Exec S B A) → S → Result B A × S
  handle (ok a) h s = (ok a, s)
  handle (err e) h s = h e s

  abbrev pub try◌except◌ : Exec S E A → (E → Exec S B A) → Exec S B A
  try◌except◌ m h s = let (r, s') = m s in handle r h s'
