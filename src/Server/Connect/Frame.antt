-- ===== src/Server/Connect/Frame.antt =====
-- pkg/server/connect.go: ReadFrame, and what DoIO does with a frame before it hands it on.
-- The stream is the bytes that the peer sends until it closes.
pub mod Accepts
use nmid.Prelude.{ℕ, ◌*◌, ◌&&◌, ◌==◌, Bool, true, false, not, ltb, if◌then◌else◌, [], length}
use nmid.Wire.{Bytes, Outcome, ok, err, conn_nil, invalid_conn_type, invalid_frame_size, ◌>>=◌}
use nmid.Wire.{to_uint32, uint32_at}
use nmid.Wire.Frame.{read_full}
use nmid.Model.{min_data_size}
use nmid.Model.ConnType
use nmid.Server.Io.{Request, req_decode_pack, new_req}

pub record Frame : Type 0 where
  pub conn_type : ℕ
  pub data_type : ℕ
  pub payload : Bytes

abbrev pub max_frame_size : ℕ
max_frame_size = 32 * 1024 * 1024

-- The rest of ReadFrame, behind the header: its checks, and the payload.
unfoldable pub read_payload : ℕ → ℕ → ℕ → Bytes → Outcome (Frame × Bytes)
read_payload conn_type data_type data_len stream =
    if not (conn_type == ConnType.worker)
      && (not (conn_type == ConnType.client) && not (conn_type == ConnType.service))
    then err invalid_conn_type
    else if ltb max_frame_size data_len
    then err invalid_frame_size
    else if data_len == 0
    then ok (record { conn_type = conn_type; data_type = data_type; payload = [] }, stream)
    else (do
      taken ← read_full data_len stream
      ok (record { conn_type = conn_type; data_type = data_type; payload = taken.0 }, taken.1))

-- The frame, and the rest of the stream. The flag says whether the connection is open.
unfoldable pub read_frame : Bool → Bytes → Outcome (Frame × Bytes)
read_frame false stream = err conn_nil
read_frame true stream = do
  taken ← read_full min_data_size stream
  conn_type ← uint32_at taken.0 0 4
  data_type ← uint32_at taken.0 4 8
  data_len ← uint32_at taken.0 8 12
  read_payload conn_type data_type data_len taken.1

-- DoIO sets these fields of the client's request and keeps the others from the last frame.
unfoldable pub client_request : Request → Frame → Request
client_request req frame = record req {
  data_type = frame.data_type;
  data_len = to_uint32 (length frame.payload);
  packet = frame.payload;
}

-- RunWorker and RunWorkerOptimized decode into a new request.
unfoldable pub worker_request : Frame → Request
worker_request frame = record new_req {
  data_type = frame.data_type;
  data_len = to_uint32 (length frame.payload);
  packet = frame.payload;
}
