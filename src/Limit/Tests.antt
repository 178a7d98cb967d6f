-- ===== src/Limit/Tests.antt =====
-- A limiter with an interval of 10.
use auditloop.Base.{◌≡◌, refl, true, false, List, [], ◌∷◌, codes, eqb, arith}
use auditloop.Limit.{Call, allow, answers, new_limiter}
use auditloop.Limit.Laws.{expected, answers-expected}

abbrev calls : List Call
calls = (codes "a", 5) ∷ (codes "b", 6) ∷ (codes "a", 14) ∷ (codes "a", 15) ∷ (codes "b", 15) ∷ []

answers_ten : answers calls (new_limiter 10) ≡ true ∷ true ∷ false ∷ true ∷ false ∷ []
unfolding answers allow eqb
answers_ten = refl

answers-expected_example : answers calls (new_limiter 10) ≡ expected 10 calls []
answers-expected_example =
    answers-expected 10 calls
      (omega arith, (omega arith, (omega arith, (omega arith, (omega arith, tt)))))
