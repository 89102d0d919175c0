-- ===== src/Consts.antt =====
-- consts.go: the protocol's limits, roles, packet types and status bytes, and the reserved paths.
use iip.Prelude.{ℕ, ◌*◌, List}
use Prim.Native.String.{String}
use Prim.Native.Char.{code}
use iip.Prelude.{[], ◌∷◌}

abbrev pub max_path_len : ℕ
max_path_len = 2048

abbrev pub max_packet_size : ℕ
max_packet_size = 16 * 1024 * 1024

abbrev pub packet_read_buf_size : ℕ
packet_read_buf_size = 512 * 1024

-- The bytes of an ASCII text.
abbrev pub codes : String → List ℕ
codes String.[] = []
codes (String.◌∷◌ letter text) = code letter ∷ codes text

abbrev pub path_new_channel : List ℕ
path_new_channel = codes "/sys/new_channel"

abbrev pub path_delete_channel : List ℕ
path_delete_channel = codes "/sys/delete_channel"

abbrev pub arg_http_header : List ℕ
arg_http_header = codes "__http_hdr__"

abbrev pub role_client : ℕ
role_client = 0

abbrev pub role_server : ℕ
role_server = 4

abbrev pub packet_type_request : ℕ
packet_type_request = 0

abbrev pub packet_type_response : ℕ
packet_type_response = 4

abbrev pub status_c0 : ℕ
status_c0 = 0

abbrev pub status_c1 : ℕ
status_c1 = 1

abbrev pub status_c2 : ℕ
status_c2 = 2

abbrev pub status_c3 : ℕ
status_c3 = 3

abbrev pub status_s4 : ℕ
status_s4 = 4

abbrev pub status_s5 : ℕ
status_s5 = 5

abbrev pub status_s6 : ℕ
status_s6 = 6

abbrev pub status_s7 : ℕ
status_s7 = 7

abbrev pub status_8 : ℕ
status_8 = 8
