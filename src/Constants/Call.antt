-- ===== src/Constants/Call.antt =====
-- disastrOS_constants.h: the numbers of the system calls, `DSOS_CALL_…`, and the sizes of their tables.
use so_oscilloscopio.Base.{ℕ}

abbrev pub max_syscalls : ℕ
max_syscalls = 32

abbrev pub preempt : ℕ
preempt = 1

abbrev pub fork : ℕ
fork = 2

abbrev pub wait : ℕ
wait = 3

abbrev pub exit : ℕ
exit = 4

abbrev pub spawn : ℕ
spawn = 5

abbrev pub sleep : ℕ
sleep = 6

abbrev pub open_resource : ℕ
open_resource = 7

abbrev pub close_resource : ℕ
close_resource = 8

abbrev pub destroy_resource : ℕ
destroy_resource = 9

abbrev pub shutdown : ℕ
shutdown = 10

abbrev pub bq_create : ℕ
bq_create = 11

abbrev pub bq_delete : ℕ
bq_delete = 12

abbrev pub bq_put : ℕ
bq_put = 13

abbrev pub bq_get : ℕ
bq_get = 14

abbrev pub bq_dump : ℕ
bq_dump = 15
