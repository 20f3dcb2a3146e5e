-- ===== src/Net/AsyncListener/Tests.antt =====
-- The theorem about AsyncListener.cc where one port is in use and every other one is free.
use mkw_sp.Base.{◌==◌, ◌≡◌, arith, refl, true, false, none, if◌then◌else◌}
use mkw_sp.Net.AsyncListener.{ListenPlatform, BindResult, poll}
use mkw_sp.Net.AsyncListener.Port.{polls, searching, polls-busy}

abbrev one_busy : ListenPlatform
one_busy = record {
  World = Unit {0};
  Connection = Unit {0};
  bind = λ port w. (if port == 50000 then BindResult.in_use else BindResult.bound, w);
  listen = λ w. (true, w);
  accept_next = λ w. (none, w);
  random_uniform = λ n w. (848, w);
}

polls-busy_example :
    let (s, v) = polls one_busy 5 (searching 50000 1018) tt in
    (s ≡ searching 50000 1023) × ((poll one_busy s v).0 ≡ false)
polls-busy_example = polls-busy one_busy 50000 (ground arith) (λ w. refl) 5 1018 tt (omega arith)
