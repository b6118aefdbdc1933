-- ===== src/Model.antt =====
-- pkg/model/const.go: the packet types, the connection types, the job states, the ways to balance
-- the load, and the sizes and parameter types that the modelled code reads.
pub mod Pdt
pub mod ConnType
pub mod JobStatus
pub mod LoadBlance
use nmid.Prelude.{ℕ}

abbrev pub min_data_size : ℕ
min_data_size = 12

abbrev pub uint32_size : ℕ
uint32_size = 4

abbrev pub params_type_msgpack : ℕ
params_type_msgpack = 5

abbrev pub params_type_json : ℕ
params_type_json = 6

abbrev pub params_handle_type_encode : ℕ
params_handle_type_encode = 10

abbrev pub params_handle_type_original : ℕ
params_handle_type_original = 11
