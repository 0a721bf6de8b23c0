-- ===== src/Store/Cursor.antt =====
-- What a query with `before_id` selects: the rows below the cursor, which are those that a page
-- that ends there leaves.
use nixadmin.Prelude.{
  keep-&&, ℕ, zero, suc, ◌<◌, ◌≡◌, refl, sym, ◌∙◌, ap, fun_ext, Bool, true, ◌&&◌, Option, none,
  some, List, [], ◌∷◌, ltb, take, drop, last?, keep, String, arith, All,
}
use nixadmin.Prelude.Int.{ℤ, pos, negsuc}
use nixadmin.Store.{Row, Db, Filter, any, matches, select}
use nixadmin.Store.Sorted.{Desc, Desc-weaken, Chron, keep-Desc}
use nixadmin.Store.Query.{select-Chron}
use nixadmin.Store.Invariant.{IsSound, keep-All}

keep_below_all : (n : ℕ) (rows : List Row) → Desc n rows → keep (λ r. ltb r.id n) rows ≡ rows
keep_below_all n [] h = refl
keep_below_all n (r ∷ rows) h =
    ground (arith, keep_below_all n rows (Desc-weaken r.id n rows (omega arith) h.1))

last-lt :
    (b n : ℕ) (rows : List Row) (r : Row) → Desc n rows → last? (take b rows) ≡ some r → r.id < n
last-lt zero n rows r h e = cc
last-lt (suc b) n [] r h e = cc
last-lt (suc zero) n (x ∷ rows) r h e = ground arith
last-lt (suc (suc b)) n (x ∷ []) r h e = ground arith
last-lt (suc (suc b)) n (x ∷ y ∷ rows) r h e =
    omega (arith, last-lt (suc b) x.id (y ∷ rows) r h.1 e)

-- Below the last row of a page stand exactly the rows that the page leaves.
pub keep_below-drop :
    (b n : ℕ) (rows : List Row) (r : Row)
    → Desc n rows
    → last? (take b rows) ≡ some r
    → keep (λ x. ltb x.id r.id) rows ≡ drop b rows
keep_below-drop zero n rows r h e = cc
keep_below-drop (suc b) n [] r h e = cc
keep_below-drop (suc zero) n (x ∷ rows) r h e = ground (arith, keep_below_all x.id rows h.1)
keep_below-drop (suc (suc b)) n (x ∷ []) r h e = ground arith
keep_below-drop (suc (suc b)) n (x ∷ y ∷ rows) r h e = ground (
  arith,
  last-lt (suc b) x.id (y ∷ rows) r h.1 e,
  keep_below-drop (suc b) x.id (y ∷ rows) r h.1 e,
)

last-All :
    (p : Row → Bool) (b : ℕ) (rows : List Row) (r : Row)
    → All (λ x. p x ≡ true) rows
    → last? (take b rows) ≡ some r
    → p r ≡ true
last-All p zero rows r h e = cc
last-All p (suc b) [] r h e = cc
last-All p (suc zero) (x ∷ rows) r h e = ground (arith, h.0)
last-All p (suc (suc b)) (x ∷ []) r h e = ground (arith, h.0)
last-All p (suc (suc b)) (x ∷ y ∷ rows) r h e = last-All p (suc b) (y ∷ rows) r h.1 e

-- The filter of a page.
abbrev pub on_page : Option String → Option ℤ → Filter
on_page unit before_id = record any { unit = unit; before_id = before_id }

matches-below :
    (unit : Option String) (before_id : Option ℤ) (r x : Row)
    → matches (on_page unit before_id) r ≡ true
    → matches (on_page unit (some (pos r.id))) x
      ≡ (ltb x.id r.id && matches (on_page unit before_id) x)
unfolding matches
matches-below unit none r x h = ground arith
matches-below unit (some (pos n)) r x h = ground arith
matches-below unit (some (negsuc n)) r x h = ground arith

-- Asking for what stands below the last row of a page of `b` rows gives what the page left out.
pub select-drop :
    (b t : ℕ) (unit : Option String) (before_id : Option ℤ) (db : Db) (r : Row)
    → IsSound db
    → Chron t db.rows
    → last? (take b (select (on_page unit before_id) db)) ≡ some r
    → select (on_page unit (some (pos r.id))) db ≡ drop b (select (on_page unit before_id) db)
select-drop b t unit before_id db r h k e =
    let f = on_page unit before_id in
    let rest = keep (matches f) db.rows in
    let same = select-Chron f t db h k in
    let e' : last? (take b rest) ≡ some r = rw (← same) e in
    let found = last-All (matches f) b rest r (keep-All (matches f) db.rows) e' in
    select-Chron (on_page unit (some (pos r.id))) t db h k
    ∙ ap (λ p. keep p db.rows) (fun_ext (λ x. matches-below unit before_id r x found))
    ∙ sym (keep-&& (λ x. ltb x.id r.id) (matches f) db.rows)
    ∙ keep_below-drop b db.next_id rest r (keep-Desc (matches f) db.next_id db.rows h) e'
    ∙ ap (drop b) (sym same)
