-- ===== src/Tests/Clatd.antt =====
-- Runs of the translation daemon's controller.
use platform_system_netd.Prelude.{refl, []}
use platform_system_netd.Containers.{lookup, assign, contains}
use platform_system_netd.Kernel.Issues.{IsOk}
use platform_system_netd.Network.{local, new_local, has_interface}
use platform_system_netd.Controller.State.{initial}
use platform_system_netd.Controller.Queries.{first_with_interface}
use platform_system_netd.Controller.Invariant.{IsWellFormed, put-IsWellFormed}
use platform_system_netd.ClatdController.{start_clatd, get_clatd_pid}
use platform_system_netd.ClatdController.Marks.{Translates, start_clatd-Translates}
use platform_system_netd.Tests.Kernels.{willing, fresh}
use platform_system_netd.Tests.Controllers.{start-IsWellFormed, tethered, sharing}

sharing-IsWellFormed : IsWellFormed sharing
unfolding lookup
sharing-IsWellFormed =
    put-IsWellFormed initial 99 (local (new_local 99)) tethered refl refl start-IsWellFormed

starting_works : IsOk (start_clatd willing sharing "rndis0" ([], fresh)).0
unfolding start_clatd get_clatd_pid lookup first_with_interface has_interface contains assign
starting_works = tt

start_clatd-Translates_example :
    Translates willing sharing "rndis0" [] fresh (start_clatd willing sharing "rndis0" ([], fresh))
start_clatd-Translates_example =
    start_clatd-Translates willing sharing "rndis0" sharing-IsWellFormed [] fresh starting_works
