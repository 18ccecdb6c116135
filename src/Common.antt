-- ===== src/Common.antt =====
-- The sizes of the socket buffers, for both programs: programs/common.h.
use vmnet_helper.Prelude.{ℕ, ◌*◌}

-- `SEND_BUFFER_SIZE`, `RECV_BUFFER_SIZE`, `RECV_BUFFER_SIZE_OFFLOAD` of programs/common.h
abbrev pub send_buffer_size : ℕ
send_buffer_size = 65 * 1024

abbrev pub recv_buffer_size : ℕ
recv_buffer_size = 4 * 1024 * 1024

abbrev pub recv_buffer_size_offload : ℕ
recv_buffer_size_offload = 8 * 1024 * 1024
