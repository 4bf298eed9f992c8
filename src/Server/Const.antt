-- ===== src/Server/Const.antt =====
-- nbd/server/const.go: the numbers of the NBD protocol that the server uses.
use pond.Prelude.{ℕ, ◌+◌, ◌*◌, ◌^◌}

abbrev pub nbdmagic : ℕ
nbdmagic = 0x4e42444d41474943

abbrev pub ihaveopt : ℕ
ihaveopt = 0x49484156454F5054

abbrev pub nbd_request_magic : ℕ
nbd_request_magic = 0x25609513

abbrev pub nbd_simple_reply_magic : ℕ
nbd_simple_reply_magic = 0x67446698

abbrev pub nbd_flag_fixed_newstyle : ℕ
nbd_flag_fixed_newstyle = 1

abbrev pub nbd_flag_has_flags : ℕ
nbd_flag_has_flags = 2 ^ 0

abbrev pub nbd_flag_read_only : ℕ
nbd_flag_read_only = 2 ^ 1

abbrev pub nbd_flag_can_multi_conn : ℕ
nbd_flag_can_multi_conn = 2 ^ 8

abbrev pub nbd_flag_send_cache : ℕ
nbd_flag_send_cache = 2 ^ 10

abbrev pub nbd_opt_export_name : ℕ
nbd_opt_export_name = 1

abbrev pub nbd_opt_abort : ℕ
nbd_opt_abort = 2

abbrev pub nbd_opt_info : ℕ
nbd_opt_info = 6

abbrev pub nbd_opt_go : ℕ
nbd_opt_go = 7

abbrev pub nbd_rep_ack : ℕ
nbd_rep_ack = 1

abbrev pub nbd_rep_info : ℕ
nbd_rep_info = 3

abbrev pub nbd_rep_error : ℕ
nbd_rep_error = 2 ^ 31

abbrev pub nbd_rep_err_unsup : ℕ
nbd_rep_err_unsup = nbd_rep_error + 1

abbrev pub nbd_rep_err_policy : ℕ
nbd_rep_err_policy = nbd_rep_error + 2

abbrev pub nbd_rep_err_unknown : ℕ
nbd_rep_err_unknown = nbd_rep_error + 6

abbrev pub nbd_rep_err_shutdown : ℕ
nbd_rep_err_shutdown = nbd_rep_error + 7

abbrev pub nbd_rep_err_too_big : ℕ
nbd_rep_err_too_big = nbd_rep_error + 9

abbrev pub nbd_info_export : ℕ
nbd_info_export = 0

abbrev pub nbd_cmd_read : ℕ
nbd_cmd_read = 0

abbrev pub nbd_cmd_write : ℕ
nbd_cmd_write = 1

abbrev pub nbd_cmd_disc : ℕ
nbd_cmd_disc = 2

abbrev pub nbd_eio : ℕ
nbd_eio = 5

abbrev pub nbd_einval : ℕ
nbd_einval = 22

abbrev pub nbd_enotsup : ℕ
nbd_enotsup = 95

-- nbd/buffer/buffer.go: the capacity of a pooled buffer.
abbrev pub buffer_size : ℕ
buffer_size = 64 * 2 ^ 10
