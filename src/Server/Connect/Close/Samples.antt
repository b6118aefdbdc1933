-- ===== src/Server/Connect/Close/Samples.antt =====
-- A worker whose stream ends within a frame.
use nmid.Prelude.{Option, [], ◌∷◌, some}
use nmid.Wire.{Bytes}
use nmid.Model.ConnType
use nmid.Server.Function.{FuncMap, add_func}
use nmid.Server.Connect.Close.{Readings, fails, temporary, reads, other_error}

abbrev id : Bytes
id = b'7' ∷ []

-- The worker registers a function with its first frame.
abbrev registers : FuncMap → Option FuncMap
registers funcs = some (add_func (some (record { worker_id = id; weight = 0 })) (b'f' ∷ []) funcs).0

abbrev cut_off : Readings
cut_off = temporary (reads ConnType.worker registers (fails other_error))
