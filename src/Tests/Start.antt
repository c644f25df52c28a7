-- ===== src/Tests/Start.antt =====
-- The theorem on djb_run where the second of four workers cannot be added.
use jumpbox.Base.{◌≡◌, refl, true, false, not, none, ◌==◌}
use jumpbox.Start.{World, child, is_fine, djb_run}
use jumpbox.Start.Ends.{
  is_sleep, is_stop, is_exit, is_acs_exit, is_acs_init, is_start, is_prf_init, made, djb_run-ends,
}

abbrev world : World
world = record {
  thread_init = true;
  calloc_ok = true;
  workers = 4;
  thread_add = λ i. not (i == 1);
  httpsrv_init = true;
  httpsrv_start = true;
  rounds = 3;
  log_set = λ name. true;
  daemonize = λ pidfile user. child;
  beyond = λ i. none;
}

djb_run-ends_example :
    (is_fine (djb_run world).1 ≡ false)
    × (made is_sleep world ≡ 0)
    × (made is_stop world ≡ 1)
    × (made is_exit world ≡ 1)
    × (made is_acs_exit world ≡ 1)
    × (made is_acs_init world ≡ 1)
    × (made is_start world ≡ 1)
    × (made is_prf_init world ≡ 2)
djb_run-ends_example = djb_run-ends world refl
