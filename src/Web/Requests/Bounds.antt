-- ===== src/Web/Requests/Bounds.antt =====
-- What src/nixadmin/web/requests.py lets through.
use text.Mathlib.TextEquality.{eq_iff}
use nixadmin.Prelude.{
  eq-false, arith, ℕ, ◌≤◌, ◌≡◌, ◌≢◌, refl, String, Bool, true, false, Option, none, some, ◌==◌,
  string_eq, ltb, if◌then◌else◌,
}
use nixadmin.Prelude.Result.{ok, err}
use nixadmin.Prelude.Number.{parse_int}
use nixadmin.Prelude.Int.{ℤ, pos, negsuc}
use nixadmin.Prelude.Text.{strip}
use nixadmin.Web.Requests.{
  Query, QuerySpec, from_query, size, first, content_length, bounded_length, or_zero, RequestError,
  or, max_query_chars,
}

-- A query that can be sent: some text of at most 4000 characters, an id and a session.
record IsWellFormed (q : QuerySpec) : Type 0 where
  pub some_text : ◌≢◌ {A = String} q.text ""
  pub bounded : size q.text ≤ 4000
  pub some_qid : ◌≢◌ {A = String} q.qid ""
  pub some_session : ◌≢◌ {A = String} q.session_id ""

passed :
    {A : Type 0} (empty large : Bool) (e f : RequestError) (spec q : A)
    → (if empty then err e else if large then err f else ok spec) ≡ ok q
    → (empty ≡ false) × (large ≡ false) × (spec ≡ q)
passed true large e f spec q h = absurd cc
passed false true e f spec q h = absurd cc
passed false false e f spec q h = (refl, refl, cc)

or-ne-nil : (s default : String) → ◌≢◌ {A = String} default "" → ◌≢◌ {A = String} (or s default) ""
or-ne-nil s default h = ground (arith)

web-ne-nil : ◌≢◌ {A = String} "web" ""
web-ne-nil = ground (arith, eq_iff "web" "")

-- A query that `from_query` accepts is well-formed, if the fresh id is not empty.
from_query-IsWellFormed :
    (fresh : String) (query : Query) (q : QuerySpec)
    → ◌≢◌ {A = String} fresh ""
    → from_query fresh query ≡ ok q
    → IsWellFormed q
unfolding from_query
from_query-IsWellFormed fresh query q nonempty h =
    let text = strip (first "text" "" query) in
    let (some_text, bounded, same) =
      passed (text == "") (ltb max_query_chars (size text))
        (record { status = 400; message = "empty query" })
        (record { status = 413; message = "query too large" })
        (record {
          qid = or (strip (first "qid" "" query)) fresh;
          text = text;
          session_id = or (strip (first "session" "web" query)) "web";
        })
        q h in
    rw (← same) (record {
      some_text = eq-false text "" some_text;
      bounded = ground arith;
      some_qid = or-ne-nil (strip (first "qid" "" query)) fresh nonempty;
      some_session = or-ne-nil (strip (first "session" "web" query)) "web" web-ne-nil;
    })

bounded_length-le : (z : Option ℤ) (n : ℕ) → bounded_length z ≡ ok n → n ≤ 65536
bounded_length-le none n h = cc
bounded_length-le (some (negsuc m)) n h = cc
bounded_length-le (some (pos m)) n h = ground arith

-- A body is read only up to 65536 bytes.
content_length-bounded : (value : Option String) (n : ℕ) → content_length value ≡ ok n → n ≤ 65536
unfolding content_length
content_length-bounded value n h = bounded_length-le (parse_int (or_zero value)) n h
