-- ===== src/Router/Report.antt =====
-- src/router.cpp and src/calculator.cpp: what a response says of an operation on two numbers.
use network_arc_rajasurya.Prelude.{
  zero, suc, ◌≡◌, refl, true, false, not, [], ◌∷◌, ◌++◌, Bytes, codes, arith, either_case,
}
use network_arc_rajasurya.Prelude.Int.{ℤ, pos, negsuc}
use network_arc_rajasurya.Response.{Response, text_response}
use network_arc_rajasurya.Calculator.{
  Operation, add, subtract, multiply, divide, fits, to_string_ℤ, CalcResult, calculate,
}
use network_arc_rajasurya.Calculator.Exact.{Exact, Answers, calculate-Answers}
use network_arc_rajasurya.Router.{respond_result}

-- Why an operation has no result.
abbrev pub reason : Operation → ℤ → Bytes
reason divide (pos zero) = codes "division by zero"
reason divide (pos (suc n)) =
    codes "integer overflow: result does not fit in a signed 64-bit integer"
reason divide (negsuc n) = codes "integer overflow: result does not fit in a signed 64-bit integer"
reason add b = codes "integer overflow: result does not fit in a signed 64-bit integer"
reason subtract b = codes "integer overflow: result does not fit in a signed 64-bit integer"
reason multiply b = codes "integer overflow: result does not fit in a signed 64-bit integer"

-- A 200 with the digits of the exact result, where it is a 64-bit value; otherwise a 400 with the
-- reason. Both are one line of text.
pub data Reports (op : Operation) (a b : ℤ) (r : Response) : Type 0 where
  reports_result :
      (v : ℤ)
      → Exact op a b v
      → fits v ≡ true
      → r.status ≡ 200
      → r.body ≡ to_string_ℤ v ++ b'\n' ∷ []
      → Reports op a b r
  reports_reason :
      ((v : ℤ) → Exact op a b v → fits v ≡ false)
      → r.status ≡ 400
      → r.body ≡ reason op b ++ b'\n' ∷ []
      → Reports op a b r

-- An error of `calculate` says why.
calculate-error :
    (op : Operation) (a b : ℤ)
    → (calculate op a b).ok ≡ false
    → (calculate op a b).error ≡ reason op b
unfolding calculate
calculate-error add a b e = ground arith
calculate-error subtract a b e = ground arith
calculate-error multiply a b e = ground arith
calculate-error divide a (pos zero) e = refl
calculate-error divide a (pos (suc n)) e = ground arith
calculate-error divide a (negsuc n) e = ground arith

result-Reports :
    (op : Operation) (a b : ℤ) (c : CalcResult)
    → Answers op a b c
    → (c.ok ≡ false → c.error ≡ reason op b)
    → Reports op a b (respond_result c)
unfolding respond_result text_response
result-Reports op a b c (right, wrong) why =
    either_case (Reports op a b) (not c.ok) _ _
      (λ no_result.
        let e : c.ok ≡ false = ground arith in reports_reason (wrong e) refl (rw (why e) refl))
      (λ has_result.
        let e : c.ok ≡ true = ground arith in
        let (exact, in_range) = right e in reports_result c.value exact in_range refl refl)

pub respond_result-Reports :
    (op : Operation) (a b : ℤ)
    → fits a ≡ true
    → fits b ≡ true
    → Reports op a b (respond_result (calculate op a b))
respond_result-Reports op a b fa fb =
    result-Reports op a b (calculate op a b) (calculate-Answers op a b fa fb)
      (calculate-error op a b)
