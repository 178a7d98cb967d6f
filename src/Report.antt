-- ===== src/Report.antt =====
-- internal/report/report.go: the verdict on a page as it is stored.
use auditloop.Base.{Bool, Option, List, Str}

pub record EvalFinding : Type 0 where
  pub issue : Str
  pub selector : Str
  pub evidence : Str
  pub verified : Bool

pub record EvalTopFix : Type 0 where
  pub selector : Str
  pub change : Str
  pub rationale : Str
  pub impact : Str

pub record PageEvaluation : Type 0 where
  pub comprehension : Str
  pub blockers : List EvalFinding
  pub frictions : List EvalFinding
  pub top_fix : Option EvalTopFix
