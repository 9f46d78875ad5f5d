-- ===== src/Syscall/Shutdown.antt =====
-- disastrOS_shutdown.c. `setcontext` does not return, so a handler says whether it does.
use so_oscilloscopio.Base.{true}
use so_oscilloscopio.Run.{Cmd, pure, modify, ◌>>◌}
use so_oscilloscopio.Kernel.{Kernel}

pub data Jump : Type 0 where
  returned to_main : Jump

unfoldable pub internal_shutdown : Cmd Kernel Jump
internal_shutdown = do modify λ k. record k { shutdown_now = true }; pure to_main
