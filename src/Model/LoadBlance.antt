-- ===== src/Model/LoadBlance.antt =====
-- pkg/model/const.go: `LOADBLANCE_*`, with the source's spelling.
use nmid.Prelude.{ℕ}

abbrev pub hash : ℕ
hash = 1

abbrev pub lru : ℕ
lru = 2

abbrev pub round_weight : ℕ
round_weight = 3
