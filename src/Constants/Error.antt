-- ===== src/Constants/Error.antt =====
-- disastrOS_constants.h: the error values, `DSOS_E…`.
use so_oscilloscopio.Base.{ℤ, negsuc}

abbrev pub argument_out_of_bounds : ℤ
argument_out_of_bounds = negsuc 0

abbrev pub not_implemented : ℤ
not_implemented = negsuc 1

abbrev pub out_of_range : ℤ
out_of_range = negsuc 2

abbrev pub fork : ℤ
fork = negsuc 3

abbrev pub wait : ℤ
wait = negsuc 4

abbrev pub spawn : ℤ
spawn = negsuc 5

abbrev pub sleep : ℤ
sleep = negsuc 6

abbrev pub resource_create : ℤ
resource_create = negsuc 7

abbrev pub resource_open : ℤ
resource_open = negsuc 8

abbrev pub resource_no_excl : ℤ
resource_no_excl = negsuc 9

abbrev pub resource_no_fd : ℤ
resource_no_fd = negsuc 10

abbrev pub resource_close : ℤ
resource_close = negsuc 11

abbrev pub resource_in_use : ℤ
resource_in_use = negsuc 12

abbrev pub exists : ℤ
exists = negsuc 13
