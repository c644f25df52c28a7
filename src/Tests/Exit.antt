-- ===== src/Tests/Exit.antt =====
-- Three proxied requests, between which the environment and the clients change.
use jumpbox.Base.{ℕ, ◌≡◌, true, none, some, [], ◌∷◌, txt, take}
use jumpbox.Prefs.Values.{no_values}
use jumpbox.Exit.{Asked, handled, exit_after, djb_handle_proxy-once, exit_name, start}
use jumpbox.Tests.Fixtures.{idle_proxy}

abbrev asked : ℕ → Asked
asked hcl = record { forced = none; values = no_values; hcl = hcl; proxy = idle_proxy }

abbrev other : ℕ → Asked
other hcl = record (asked hcl) { forced = some (txt "other") }

djb_handle_proxy-once_example :
    let name = take 256 (exit_name none no_values) in
    let (e, p, ok) = handled 256 (asked 1) start in
    let (f, q, done) = handled 256 (other 3) (exit_after 256 (asked 2 ∷ other 2 ∷ []) e) in
    ((p.client 1).hostname ≡ name)
    × ((q.client 3).hostname ≡ name)
    × ((p.client 1).keephandling ≡ true)
    × ((q.client 3).keephandling ≡ true)
djb_handle_proxy-once_example =
    djb_handle_proxy-once 256 (asked 1) (asked 2 ∷ other 2 ∷ []) (other 3)
