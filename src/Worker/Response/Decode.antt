-- ===== src/Worker/Response/Decode.antt =====
-- What a worker's DecodePack reads from a job packet.
use nmid.Prelude.{ℕ, ◌+◌, ◌<◌, ◌^◌, ◌≡◌, refl, Option, [], ◌++◌, arith, length}
use nmid.Wire.{Bytes, IsUint32, ok, be32}
use nmid.Wire.Uint32.{sizes}
use nmid.Wire.Scan.{At-start, At-next, scan_uint32, scan_slice}
use nmid.Wire.Frame.{frame_bytes}
use mathlib.Core.List.{append-nil}
use nmid.Prelude.{ap, Bool-cases, inl, inr}
use nmid.Model.{params_type_msgpack, params_type_json}
use nmid.Prelude.{ltb, ◌==◌, ==-refl, if◌then◌else◌, false}
use native.Mathlib.Nat.{mod-eq_of_lt}
use nmid.Model.Pdt
use nmid.Worker.Response.{
  Response, new_res, parse_params, decode_get_data, decode_content, decode_pack,
}

module _ {M : Type 0} (msgpack json : Bytes → Option M) where
  -- The map of the parameters, by the parser for their type; other types keep the map they had.
  abbrev pub map_for : ℕ → Bytes → Option M → Option M
  map_for params_type params other =
      if params_type == params_type_msgpack
      then msgpack params
      else if params_type == params_type_json
      then json params
      else other

  -- The response that holds exactly these fields.
  abbrev pub job_response : ℕ → ℕ → Bytes → Bytes → Bytes → Response M → Response M
  job_response params_type params_handle_type handle params job_id resp = record resp {
    params_type = params_type;
    params_handle_type = params_handle_type;
    handle_len = length handle;
    params_len = length params;
    job_id_len = length job_id;
    handle = handle;
    params = params;
    params_map = map_for params_type params resp.params_map;
    job_id = job_id;
  }

  parse_params_lem :
      (params : Bytes) (resp : Response M)
      → parse_params msgpack json params resp ≡ record resp {
        params = params;
        params_map = map_for resp.params_type params resp.params_map;
      }
  unfolding parse_params
  parse_params_lem params resp = elim (Bool-cases (resp.params_type == params_type_msgpack)) [
    | inl packed ↦ ground (arith, packed)
    | inr other ↦ elim (Bool-cases (resp.params_type == params_type_json)) [
      | inl text ↦ ground (arith, other, text)
      | inr neither ↦ ground (arith, other, neither)
    ]
  ]

  pub decode_get_data_lem :
      (conn_type data_type n params_type params_handle_type : ℕ) (handle params job_id : Bytes)
      (packet : Bytes) (resp : Response M)
      → packet
        ≡ be32 conn_type
          ++ (be32 data_type
              ++ (be32 n
                  ++ (be32 params_type
                      ++ (be32 params_handle_type
                          ++ (be32 (length handle)
                              ++ (be32 (length params)
                                  ++ (be32 (length job_id) ++ (handle ++ (params ++ job_id)))))))))
      → IsUint32 params_type
      → IsUint32 params_handle_type
      → 20 + length handle + length params + length job_id < 2 ^ 32
      → decode_get_data msgpack json packet resp
        ≡ ok (job_response params_type params_handle_type handle params job_id resp)
  unfolding decode_get_data
  decode_get_data_lem c d n pt pht handle params job_id packet resp e t₁ t₂ small =
      let a₁ = At-next 0 4 (be32 c) _ (At-start e) (omega sizes) in
      let a₂ = At-next 4 8 (be32 d) _ a₁ (omega sizes) in
      let a₃ = At-next 8 12 (be32 n) _ a₂ (omega sizes) in
      scan_uint32 _ _ _ _ _ _ a₃ (omega sizes) t₁ λ a.
        scan_uint32 _ _ _ _ _ _ a (omega sizes) t₂ λ a.
          scan_uint32 _ _ _ _ _ _ a (omega sizes) (omega sizes) λ a.
            scan_uint32 _ _ _ _ _ _ a (omega sizes) (omega sizes) λ a.
              scan_uint32 _ _ _ _ _ _ a (omega sizes) (omega sizes) λ a.
                scan_slice _ _ _ handle _ _ a (omega sizes) λ a.
                  scan_slice _ _ _ params _ _ a (omega sizes) λ a.
                    scan_slice _ _ _ job_id [] _ (rw (append-nil job_id) a) (omega sizes) λ a.
                      ap {A = Response M} (λ r. ok (record r { job_id = job_id }))
                        (parse_params_lem params _)

  -- A response before its content is parsed.
  abbrev pub framed : ℕ → Bytes → Response M
  framed data_type content = record (new_res M) {
    data_type = data_type;
    data_len = length content;
    packet = content;
  }

  -- DecodePack of one whole frame.
  pub decode_pack-frame_bytes :
      (conn_type data_type : ℕ) (content : Bytes)
      → IsUint32 data_type
      → length content < 2 ^ 32
      → decode_pack msgpack json (frame_bytes conn_type data_type content) ≡ (
          if data_type == Pdt.s_get_data
          then decode_get_data msgpack json
              (frame_bytes conn_type data_type content)
              (framed data_type content)
          else ok (framed data_type content))
  unfolding decode_pack decode_content
  decode_pack-frame_bytes conn_type data_type content t small =
      let a₁ =
        At-next 0 4 (be32 conn_type) (be32 data_type ++ (be32 (length content) ++ content))
          (At-start refl) (omega sizes) in
      let a₂ = At-next 4 8 (be32 data_type) (be32 (length content) ++ content) a₁ (omega sizes) in
      let a₃ = At-next 8 12 (be32 (length content)) content a₂ (omega sizes) in
      let size : length (frame_bytes conn_type data_type content) ≡ 12 + length content =
        omega sizes in
      let long : ltb (12 + length content) 12 ≡ false = ground arith in
      let whole : ltb (12 + length content) (12 + length content) ≡ false = ground arith in
      rw (size, long)
        (scan_uint32 _ _ _ _ _ _ a₂ (omega sizes) small λ _. rw whole (
          scan_slice _ 12 _ content [] _ (rw (append-nil content) a₃) (omega sizes) λ _.
            scan_uint32 _ _ _ _ _ _ a₁ (omega sizes) t
              λ _. rw (==-refl (length content), mod-eq_of_lt small) refl))
