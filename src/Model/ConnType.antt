-- ===== src/Model/ConnType.antt =====
-- pkg/model/const.go: `CONN_TYPE_*`.
use nmid.Prelude.{ℕ}

abbrev pub init : ℕ
init = 0

abbrev pub server : ℕ
server = 1

abbrev pub worker : ℕ
worker = 2

abbrev pub client : ℕ
client = 3

abbrev pub service : ℕ
service = 4
