-- ===== src/Model/Pdt.antt =====
-- pkg/model/const.go: the packet types `PDT_*` that the modelled code names.
use nmid.Prelude.{ℕ}

abbrev pub ok : ℕ
ok = 1

abbrev pub error : ℕ
error = 2

abbrev pub cant_do : ℕ
cant_do = 4

abbrev pub no_job : ℕ
no_job = 5

abbrev pub wakeup : ℕ
wakeup = 8

abbrev pub s_get_data : ℕ
s_get_data = 10

abbrev pub s_return_data : ℕ
s_return_data = 11

abbrev pub s_heartbeat_pong : ℕ
s_heartbeat_pong = 23

abbrev pub w_grab_job : ℕ
w_grab_job = 12

abbrev pub w_add_func : ℕ
w_add_func = 13

abbrev pub w_del_func : ℕ
w_del_func = 14

abbrev pub w_return_data : ℕ
w_return_data = 15

abbrev pub w_heartbeat_ping : ℕ
w_heartbeat_ping = 22

abbrev pub w_set_name : ℕ
w_set_name = 23

abbrev pub c_do_job : ℕ
c_do_job = 16

abbrev pub ratelimit : ℕ
ratelimit = 18

abbrev pub tosleep : ℕ
tosleep = 7

abbrev pub wakeuped : ℕ
wakeuped = 9
