-- ===== src/Hook/Tests.antt =====
-- Runs of the theorems about the descriptors on new managers, for a system of sockets.
use lo_netfw.Base.{true, some}
use lo_netfw.Hook.Fd.{Fstat}

abbrev sockets : Fstat
sockets n = some true
