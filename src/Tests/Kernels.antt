-- ===== src/Tests/Kernels.antt =====
-- Kernels for the runs: one that does what it is asked.
use platform_system_netd.Prelude.{none, some, true, [], ◌∷◌}
use platform_system_netd.Kernel.{Kernel, World, inet, received}

-- Every request is acknowledged, every command exits with 0, every interface has the index 7.
abbrev pub willing : Kernel
willing = record {
  netlink = λ calls c. received 36 0;
  execvp = λ calls c. record { res = 0; exited = true; status = 0 };
  if_nametoindex = λ calls lookups s. 7;
  getaddrinfo = λ s. none;
  inet_pton = λ family s. none;
  popen = λ calls words. some "";
  writes = λ calls path. true;
  takes = λ calls path. true;
  pipe = λ calls. some 5;
  fork = λ calls. some 99;
  sends = λ calls fd. true;
  inet_aton = λ s. some (8 ∷ 8 ∷ 8 ∷ 8 ∷ []);
  reads = λ calls path. none;
  property_get = λ calls name. none;
}

abbrev pub fresh : World
fresh = record { calls = []; lookups = 0; interface_to_table = [] }

-- The same, where every address is one of IPv4.
abbrev pub resolving : Kernel
resolving = record willing { getaddrinfo = λ s. some (some inet, 192 ∷ 168 ∷ 42 ∷ 0 ∷ []) }
