-- ===== src/Gate.antt =====
-- internal/eval: the deterministic gate that checks a model's findings against the page's digest.
pub mod Claims
pub mod Refute
pub mod Ground
pub mod Pushed
mod Tests
use auditloop.Base.{Option}
use auditloop.Report.{PageEvaluation}
use auditloop.Digest.{A11yDigest}
use auditloop.Gate.Refute.{drop_contradicted}
use auditloop.Gate.Ground.{ground_selectors}

-- applyDOMGate: first the selectors are grounded, then what the digest refutes is dropped.
unfoldable pub apply_dom_gate : PageEvaluation → Option A11yDigest → PageEvaluation
apply_dom_gate pe d = drop_contradicted (ground_selectors pe d) d
