-- ===== src/Message.antt =====
-- ElasticFrameProtocol.h: enum class ElasticFrameMessages and the constants of the protocol.
use efp.Prelude.{ℕ}

pub data ElasticFrameMessages : Type 0 where
  dmsg_source_missing version_not_supported too_high_version : ElasticFrameMessages
  less_data_than_expected no_data_for_key data_not_json too_large_frame : ElasticFrameMessages
  too_large_embedded_data unknown_frame_type frame_size_mismatch : ElasticFrameMessages
  internal_calculation_error not_defined_error buffer_out_of_bounds : ElasticFrameMessages
  buffer_out_of_resources reserved_pts_value reserved_dts_value : ElasticFrameMessages
  reserved_code_value reserved_stream_value memory_allocation_error : ElasticFrameMessages
  illegal_embedded_data type1_and3_size_error receiver_not_running : ElasticFrameMessages
  dtspts_diff_to_large type2_frame_out_of_bounds efp_capi_failure : ElasticFrameMessages
  no_error not_implemented duplicate_packet_received too_old_fragment : ElasticFrameMessages
  failed_stopping_receiver type0_frame efp_signal_dropped : ElasticFrameMessages
  content_already_listed content_not_listed delete_content_fail : ElasticFrameMessages

-- CIRCULAR_BUFFER_SIZE, a mask of 13 ones: `x & CIRCULAR_BUFFER_SIZE` is `x % 8192`.
abbrev pub circular_buffer_size : ℕ
circular_buffer_size = 8191

abbrev pub inline_payload : ℕ
inline_payload = 0b0001_0000

-- Of ElasticFrameContentDefines only these two are tested or stored by the library.
abbrev pub unknown_content : ℕ
unknown_content = 0x00

abbrev pub efpsig : ℕ
efpsig = 0x80
