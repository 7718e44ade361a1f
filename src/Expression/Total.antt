-- ===== src/Expression/Total.antt =====
-- The recursion of `is_valid_term` and `is_valid_expression` ends.
use groff.Prelude.{ℕ, zero, suc, ◌+◌, ◌-◌, ◌*◌, ◌≤◌, Bool, true, false, ℤ, arith}
use groff.Int32.{IsInt}
use groff.Expression.Input.{Input, size, is_newline, current, skip_spaces}
use groff.Expression.Number.{Device}
use groff.Expression.Reader.{read_term, read_expression, read_loop, fuel, read_measurement}
use groff.Expression.Bounds.{Post-bind, Post-weaken, Post-if, size-skip_spaces, read_signs-Post}
use groff.Expression.Steps.{Safe, term_body-Safe, loop_body-Safe}

module _ (dev : Device) where
  mutual
    unfolding read_term read_expression read_loop

    read_term-Safe :
        (f : ℕ) (n unit : ℕ) (paren mandatory : Bool) (i : Input)
        → 2 * n + 1 ≤ f
        → size i ≤ n
        → Safe n (read_term dev f unit paren mandatory i)
    read_term-Safe zero n unit paren mandatory i enough h = absurd (omega arith)
    read_term-Safe (suc f) n unit paren mandatory i enough h =
        Post-bind (λ _. Unit {0}) IsInt n _ _
          (Post-weaken (λ _. Unit {0}) _ h (read_signs-Post paren false i))
          (λ negative k _ hk.
            term_body-Safe dev unit mandatory _ _ negative n
              (λ j lt.
                Post-weaken IsInt {m = n - 1} _ (omega arith)
                  (read_term-Safe f (n - 1) unit paren mandatory j (omega arith) (omega arith)))
              (λ si j lt.
                read_expression-Safe f (n - 1) si true mandatory j (omega arith) (omega arith))
              k hk)

    read_expression-Safe :
        (f : ℕ) (n unit : ℕ) (paren mandatory : Bool) (i : Input)
        → 2 * n + 2 ≤ f
        → size i ≤ n
        → Safe n (read_expression dev f unit paren mandatory i)
    read_expression-Safe zero n unit paren mandatory i enough h = absurd (omega arith)
    read_expression-Safe (suc f) n unit paren mandatory i enough h =
        Post-bind IsInt IsInt n _ _ (read_term-Safe f n unit paren mandatory i (omega arith) h)
          (λ u k hu hk. read_loop-Safe f n unit paren mandatory u k (omega arith) hu hk)

    read_loop-Safe :
        (f : ℕ) (n unit : ℕ) (paren mandatory : Bool) (u : ℤ) (i : Input)
        → 2 * n + 1 ≤ f
        → IsInt u
        → size i ≤ n
        → Safe n (read_loop dev f unit paren mandatory u i)
    read_loop-Safe zero n unit paren mandatory u i enough hu h = absurd (omega arith)
    read_loop-Safe (suc f) n unit paren mandatory u i enough hu h =
        loop_body-Safe dev paren _ _ n
          (λ j lt. read_term-Safe f (n - 1) unit paren mandatory j (omega arith) (omega arith))
          (λ v j hv lt.
            read_loop-Safe f (n - 1) unit paren mandatory v j (omega arith) hv (omega arith))
          u i hu h

  -- Reading a measurement always ends: it is never out of fuel. Unless the code itself is undefined, an
  -- accepted value is an `int`, and no more tokens are left than there were, also where the expression
  -- is refused.
  pub read_measurement-Safe :
      (unit : ℕ) (mandatory : Bool) (i : Input)
      → Safe (size i) (read_measurement dev unit mandatory i)
  unfolding read_measurement
  read_measurement-Safe unit mandatory i =
      let j = skip_spaces i in
      let le = size-skip_spaces i in
      Post-if IsInt _ (is_newline (current j)) _ _ le (
        Post-weaken IsInt _ le (
          read_expression-Safe (fuel dev j) (size j) unit false mandatory j (omega arith)
            (omega arith)))
