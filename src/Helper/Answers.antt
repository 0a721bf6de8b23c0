-- ===== src/Helper/Answers.antt =====
-- What the daemon reads of the helper's answers.
use mathlib.Core.Bool.{false≢true}
use mathlib.Core.List.{append_assoc}
use nixadmin.Prelude.{
  length-append, length-map, ℕ, zero, suc, ◌≤◌, ◌<◌, ◌≡◌, ◌↔◌, refl, sym, ◌∙◌, ap, String, ◌<>◌,
  true, false, Option, none, some, List, [], ◌∷◌, ◌++◌, map, string_eq, if◌then◌else◌, take, length,
  arith, Bool-cases, inl, inr,
}
use nixadmin.Prelude.Int.{ℤ, pos, negsuc}
use nixadmin.Prelude.Text.{strip, show_int}
use nixadmin.Prelude.Result.{ok, err}
use nixadmin.Json.{dumps, obj, get}
use nixadmin.Safety.{
  Line, End, line, eof, Reading, read_stream, read_exit, read_message, read_line, read_lines,
  read_end, nothing_read, no_exit_status,
}
use nixadmin.Helper.{
  Message, stream, exit, to_json, streams, is_zero, or_one, exit_code_from, Rebuild, not_started,
  started, run_rebuild,
}

-- The lines that the messages make.
abbrev pub to_lines : List Message → List Line
to_lines = map (λ m. line (dumps (obj (to_json m))))

-- The texts one after the other, behind what was read before.
abbrev pub behind : String → List String → String
behind output [] = output
behind output (x ∷ xs) = behind (output <> x) xs

read-stream :
    (x : String) (r : Reading)
    → read_line (line (dumps (obj (to_json (stream x))))) r
      ≡ ok (record r { output = r.output <> x })
unfolding read_line read_message read_stream read_exit to_json get string_eq
read-stream x r = refl

read-exit :
    (z : ℤ) (r : Reading)
    → read_line (line (dumps (obj (to_json (exit z))))) r ≡ ok (record r { exit_code = some z })
unfolding read_line read_message read_stream read_exit to_json get string_eq
read-exit z r = refl

read_lines-ok :
    (l : Line) (ls : List Line) (finish : End) (r r' : Reading)
    → read_line l r ≡ ok r'
    → read_lines (l ∷ ls) finish r ≡ read_lines ls finish r'
unfolding read_lines
read_lines-ok l ls finish r r' h = ground (arith, h)

abbrev to_line : Message → Line
to_line m = line (dumps (obj (to_json m)))

read_whole :
    (xs : List String) (z : ℤ) (r : Reading)
    → read_lines (to_lines (streams xs ++ (exit z ∷ []))) eof r ≡ ok (strip (behind r.output xs), z)
unfolding read_lines read_end
read_whole [] z r =
    read_lines-ok (to_line (exit z)) [] eof r (record r { exit_code = some z }) (read-exit z r)
read_whole (x ∷ xs) z r =
    read_lines-ok (to_line (stream x)) (to_lines (streams xs ++ (exit z ∷ []))) eof r
      (record r { output = r.output <> x }) (read-stream x r)
    ∙ read_whole xs z (record r { output = r.output <> x })

read_cut :
    (n : ℕ) (xs : List String) (z : ℤ) (r : Reading)
    → n ≤ length xs
    → r.exit_code ≡ none
    → read_lines (to_lines (take n (streams xs ++ (exit z ∷ [])))) eof r ≡ err no_exit_status
unfolding read_lines read_end
read_cut zero xs z r h e = rw e
read_cut (suc n) [] z r h e = absurd (omega arith)
read_cut (suc n) (x ∷ xs) z r h e =
    read_lines-ok (to_line (stream x)) (to_lines (take n (streams xs ++ (exit z ∷ [])))) eof r
      (record r { output = r.output <> x }) (read-stream x r)
    ∙ read_cut n xs z (record r { output = r.output <> x }) (omega arith) e

-- The helper reports 0 exactly for a unit that ended active, whatever its recorded status says.
pub exit_code_from-zero :
    (active_state : String) (parsed : Option ℤ)
    → (is_zero (exit_code_from active_state parsed) ≡ true) ↔ (active_state ≡ "active")
unfolding exit_code_from
exit_code_from-zero active_state parsed = ground arith

-- The texts that a rebuild streams, and the exit code at the end.
abbrev pub spoken : Rebuild → List String
spoken (not_started output code) = ("could not start rebuild unit: " <> strip output <> "\n") ∷ []
spoken (started lines active_state parsed) =
    let code = exit_code_from active_state parsed in
    if is_zero code then lines else lines ++ (("(rebuild exited " <> show_int code <> ")\n") ∷ [])

abbrev pub exit_of : Rebuild → ℤ
exit_of (not_started output code) = or_one code
exit_of (started lines active_state parsed) = exit_code_from active_state parsed

-- A rebuild that was launched and whose unit ended active.
abbrev pub IsClean : Rebuild → Type 0
IsClean (not_started output code) = ⊥
IsClean (started lines active_state parsed) = active_state ≡ "active"

streams-append : (xs ys : List String) → streams (xs ++ ys) ≡ streams xs ++ streams ys
streams-append [] ys = refl
streams-append (x ∷ xs) ys = ap (λ ms. stream x ∷ ms) (streams-append xs ys)

run_rebuild-spoken : (b : Rebuild) → run_rebuild b ≡ streams (spoken b) ++ (exit (exit_of b) ∷ [])
unfolding run_rebuild
run_rebuild-spoken (not_started output code) = refl
run_rebuild-spoken (started lines active_state parsed) =
    elim (Bool-cases (is_zero (exit_code_from active_state parsed))) [
      | inl e ↦ rw e
      | inr e ↦ rw (e, streams-append, append_assoc)
    ]

is_zero-or_one : (code : ℤ) → is_zero (or_one code) ≡ false
is_zero-or_one (pos n) = ground arith
is_zero-or_one (negsuc n) = refl

exit_of-zero : (b : Rebuild) → (is_zero (exit_of b) ≡ true) ↔ IsClean b
exit_of-zero (not_started output code) =
    (λ e. absurd (false≢true (sym (is_zero-or_one code) ∙ e)), λ h. absurd h)
exit_of-zero (started lines active_state parsed) = exit_code_from-zero active_state parsed

spoken-length : (b : Rebuild) (n : ℕ) → n < length (run_rebuild b) → n ≤ length (spoken b)
spoken-length b n h =
    let shape = ap length (run_rebuild-spoken b) in
    omega (
      arith,
      shape,
      length-append (streams (spoken b)) (exit (exit_of b) ∷ []),
      length-map stream (spoken b),
    )

-- The gate reads a rebuild's answer to the end as the texts that were streamed and an exit code,
-- and the code is 0 exactly if the rebuild was launched and its unit ended active.
pub run_rebuild-read :
    (b : Rebuild)
    → (read_lines (to_lines (run_rebuild b)) eof nothing_read
        ≡ ok (strip (behind "" (spoken b)), exit_of b))
      × ((is_zero (exit_of b) ≡ true) ↔ IsClean b)
run_rebuild-read b =
    (rw run_rebuild-spoken (read_whole (spoken b) (exit_of b) nothing_read), exit_of-zero b)

-- A rebuild's answer that breaks off anywhere before its last message is an error for the gate,
-- never an exit code.
pub run_rebuild-cut :
    (b : Rebuild) (n : ℕ)
    → n < length (run_rebuild b)
    → read_lines (to_lines (take n (run_rebuild b))) eof nothing_read ≡ err no_exit_status
run_rebuild-cut b n h =
    rw run_rebuild-spoken
      (read_cut n (spoken b) (exit_of b) nothing_read (spoken-length b n h) refl)
