-- ===== src/Model/JobStatus.antt =====
-- pkg/model/const.go: `JOB_STATUS_*`.
use nmid.Prelude.{ℕ}

abbrev pub init : ℕ
init = 7

abbrev pub doing : ℕ
doing = 8

abbrev pub done : ℕ
done = 9
