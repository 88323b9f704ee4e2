-- ===== src/Executor/Sandbox/Lines.antt =====
-- What executeJob of egvm-invoker/executor/sandbox.go reads in the first run.
use egvm.Prelude.{
  ◌<◌, ◌≡◌, ◌≢◌, refl, ap, ◌∙◌, true, false, Option, none, some, List, [], ◌∷◌, ◌++◌, length, ltb,
  ◌==◌, All, arith,
}
use egvm.Bytes.{Bytes}
use egvm.Executor.Sandbox.{
  JobLib, Sandbox, Ended, result, error, max_scan_token_size, drop_cr, split_newline, full_lines,
  scanned_lines, lines_of, fourth_line, after_first_run, execute_in_sandbox,
}

-- A line that the scanner gives as it is: no newline and no carriage return in it, and not too long.
abbrev pub IsLine : Bytes → Type 0
IsLine line = All (λ c. (c ≢ 10) × (c ≢ 13)) line × (length line < max_scan_token_size)

split_newline-line :
    (line rest : Bytes)
    → All (λ c. (c ≢ 10) × (c ≢ 13)) line
    → split_newline (line ++ (10 ∷ rest)) ≡ (line, (split_newline rest).0 ∷ (split_newline rest).1)
unfolding split_newline
split_newline-line [] rest h = refl
split_newline-line (c ∷ line) rest h =
    let differs : (c == 10) ≡ false = ground (arith, h.0.0) in
    rw (split_newline-line line rest h.1) (rw differs refl)

drop_cr-line : (line : Bytes) → All (λ c. (c ≢ 10) × (c ≢ 13)) line → drop_cr line ≡ line
unfolding drop_cr
drop_cr-line [] h = refl
drop_cr-line (c ∷ []) h = ground (arith, h.0.1)
drop_cr-line (c ∷ d ∷ line) h = ap (λ r. c ∷ r) (drop_cr-line (d ∷ line) h.1)

lines_of-line :
    (line rest : Bytes) → IsLine line → lines_of (line ++ (10 ∷ rest)) ≡ line ∷ lines_of rest
unfolding lines_of full_lines scanned_lines
lines_of-line line rest (clean, short) =
    let fits : ltb (length line) max_scan_token_size ≡ true = ground (arith, short) in
    rw (split_newline-line line rest clean) (rw (fits, drop_cr-line line clean) refl)

module _ (lib : JobLib) where
  -- What the fourth line of an output makes of the first run.
  abbrev pub read_as : Option lib.LambdaResult → Sandbox × Ended lib.LambdaResult
  read_as none = (record { first_run = true }, error)
  read_as (some res) = (record { first_run = false }, result res)

  fourth_of :
      (a b c d : Bytes) (rest : List Bytes)
      → fourth_line lib 0 (a ∷ b ∷ c ∷ d ∷ rest)
        ≡ elim (lib.unmarshal_result d) [ none ↦ error | some res ↦ result res ]
  unfolding fourth_line
  fourth_of a b c d rest = refl

  first_run-fourth_line :
      (b : Ended lib.LambdaResult) (r : Option lib.LambdaResult)
      → b ≡ elim r [ none ↦ error | some res ↦ result res ]
      → (after_first_run lib (record { first_run = true }) b, b) ≡ read_as r
  first_run-fourth_line b none e = rw e refl
  first_run-fourth_line b (some res) e = rw e refl

  -- The first run on linux takes as the result the line behind three lines of the child, up to the
  -- first newline, whatever stands behind it.
  pub execute_in_sandbox-first_run :
      (job : lib.LambdaJob) (bz a b c answer rest : Bytes)
      → lib.darwin ≡ false
      → lib.accepts_input ≡ true
      → lib.marshal_job job ≡ some bz
      → IsLine a
      → IsLine b
      → IsLine c
      → IsLine answer
      → execute_in_sandbox lib
          (record { first_run = true })
          job
          (a ++ (10 ∷ (b ++ (10 ∷ (c ++ (10 ∷ (answer ++ (10 ∷ rest))))))))
        ≡ read_as (lib.unmarshal_result answer)
  unfolding execute_in_sandbox
  execute_in_sandbox-first_run job bz a b c answer rest linux accepting written la lb lc ld =
      let behind_c = c ++ (10 ∷ (answer ++ (10 ∷ rest))) in
      let out = a ++ (10 ∷ (b ++ (10 ∷ behind_c))) in
      let lines : lines_of out ≡ a ∷ b ∷ c ∷ answer ∷ lines_of rest =
        lines_of-line a (b ++ (10 ∷ behind_c)) la
        ∙ ap (λ ls. a ∷ ls)
            (lines_of-line b behind_c lb
              ∙ ap (λ ls. b ∷ ls)
                  (lines_of-line c (answer ++ (10 ∷ rest)) lc
                    ∙ ap (λ ls. c ∷ ls) (lines_of-line answer rest ld))) in
      rw (written, execute_in_sandbox)
        (rw (accepting, linux)
          (first_run-fourth_line (fourth_line lib 0 (lines_of out)) (lib.unmarshal_result answer)
            (ap (fourth_line lib 0) lines ∙ fourth_of a b c answer (lines_of rest))))

  -- Where the child ends its output before a fourth line, the first run gives the empty result and
  -- no error.
  pub execute_in_sandbox-no_answer :
      (job : lib.LambdaJob) (bz a b : Bytes)
      → lib.darwin ≡ false
      → lib.accepts_input ≡ true
      → lib.marshal_job job ≡ some bz
      → IsLine a
      → IsLine b
      → execute_in_sandbox lib (record { first_run = true }) job (a ++ (10 ∷ (b ++ (10 ∷ []))))
        ≡ (record { first_run = false }, result lib.no_result)
  unfolding execute_in_sandbox fourth_line
  execute_in_sandbox-no_answer job bz a b linux accepting written la lb =
      let lines : lines_of (a ++ (10 ∷ (b ++ (10 ∷ [])))) ≡ a ∷ b ∷ [] =
        lines_of-line a (b ++ (10 ∷ [])) la ∙ ap (λ ls. a ∷ ls) (lines_of-line b [] lb) in
      rw (written, execute_in_sandbox)
        (rw (accepting, linux)
          (ap (λ e. (after_first_run lib (record { first_run = true }) e, e))
            (ap (fourth_line lib 0) lines)))
