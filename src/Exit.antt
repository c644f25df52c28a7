-- ===== src/Exit.antt =====
-- The name that proxied requests are sent to: djb_handle_proxy (server/djb.c).
use jumpbox.Base.{
  ℕ, ◌≡◌, Bool, true, false, Option, none, some, Text, arith, take, refl, ◌∙◌, List, [], ◌∷◌,
  Option-cases, if◌then◌else◌,
}
use jumpbox.Http.{Client, update}
use jumpbox.Proxy.Queues.{Proxy, write}
use jumpbox.Prefs.Argv.Slots.{value, prf_get_value-some}
use jumpbox.Prefs.Values.{Values, or_default, prf_get_value, prf_sa}

-- l_exit_hostname, and djb_handle_proxy's static got_hostname.
pub record Exit : Type 0 where
  pub got_hostname : Bool
  pub l_exit_hostname : Option Text

abbrev pub start : Exit
start = record { got_hostname = false; l_exit_hostname = none }

-- mstrdup is taken to succeed.
abbrev pub or_kept : Option Text → Option Text → Option Text
or_kept none old = old
or_kept (some h) old = some h

-- The argument is what getenv("DJB_FORCED_HOSTNAME") returns.
unfoldable pub fetch : Option Text → Values → Exit → Exit
fetch forced values e = if e.got_hostname then e else record {
  got_hostname = true;
  l_exit_hostname = or_kept (or_default forced (prf_get_value prf_sa values)) e.l_exit_hostname;
}

-- strncpy into the `size` bytes of headers.hostname.
abbrev pub override : ℕ → Option Text → Client → Client
override size none c = c
override size (some h) c = record c { hostname = take size h }

-- djb_handle_proxy_post, which is djb_proxy_add, follows.
unfoldable pub djb_handle_proxy : ℕ → Option Text → Values → ℕ → Exit → Proxy → Exit × Proxy × Bool
unfolding fetch
djb_handle_proxy size forced values hcl e p =
    let f = fetch forced values e in
    (
      f,
      write hcl (record (override size f.l_exit_hostname (p.client hcl)) { keephandling = true }) p,
      true,
    )

-- The name that a first request finds.
abbrev pub exit_name : Option Text → Values → Text
exit_name none values = value prf_sa values
exit_name (some h) values = h

preferred : (values : Values) → prf_get_value prf_sa values ≡ some (value prf_sa values)
preferred values = prf_get_value-some prf_sa values (omega arith, λ e. omega (arith, e))

-- A proxied request: what getenv returns, the preferences and the clients at that time.
pub record Asked : Type 0 where
  pub forced : Option Text
  pub values : Values
  pub hcl : ℕ
  pub proxy : Proxy

abbrev pub handled : ℕ → Asked → Exit → Exit × Proxy × Bool
handled size r e = djb_handle_proxy size r.forced r.values r.hcl e r.proxy

-- Requests one after the other.
abbrev pub exit_after : ℕ → List Asked → Exit → Exit
exit_after size [] e = e
exit_after size (r ∷ rs) e = exit_after size rs (handled size r e).0

exit_after-found :
    (size : ℕ) (rs : List Asked) (e : Exit) → e.got_hostname ≡ true → exit_after size rs e ≡ e
unfolding djb_handle_proxy fetch
exit_after-found size [] e h = refl
exit_after-found size (r ∷ rs) e h =
    exit_after-found size rs (handled size r e).0 (ground arith) ∙ ground arith

-- What the first request leaves.
abbrev found : Asked → Exit
found first = record {
  got_hostname = true;
  l_exit_hostname = some (exit_name first.forced first.values);
}

first-found : (size : ℕ) (first : Asked) → (handled size first start).0 ≡ found first
unfolding djb_handle_proxy fetch
first-found size first = ground (arith, preferred first.values, Option-cases first.forced)

handled-found :
    (size : ℕ) (name : Text) (r : Asked) (e : Exit)
    → e ≡ record { got_hostname = true; l_exit_hostname = some name }
    → let c = (handled size r e).1.client r.hcl in
      (c.hostname ≡ take size name) × (c.keephandling ≡ true)
unfolding djb_handle_proxy fetch update
handled-found size name r e h = ground arith

first-handled :
    (size : ℕ) (first : Asked)
    → let c = (handled size first start).1.client first.hcl in
      (c.hostname ≡ take size (exit_name first.forced first.values)) × (c.keephandling ≡ true)
unfolding djb_handle_proxy fetch update
first-handled size first = ground (arith, preferred first.values, Option-cases first.forced)

-- Every proxied request after the first, however many came between them, goes to the exit that was
-- found at the first one, the forced name or else the preference of that time, cut to the size of
-- the field, whatever the environment and the preferences are by then; and so does the first. Each
-- is left to the queues.
pub djb_handle_proxy-once :
    (size : ℕ) (first : Asked) (between : List Asked) (last : Asked)
    → let name = take size (exit_name first.forced first.values) in
      let (e, p, ok) = handled size first start in
      let (f, q, done) = handled size last (exit_after size between e) in
      ((p.client first.hcl).hostname ≡ name)
      × ((q.client last.hcl).hostname ≡ name)
      × ((p.client first.hcl).keephandling ≡ true)
      × ((q.client last.hcl).keephandling ≡ true)
djb_handle_proxy-once size first between last =
    let e = (handled size first start).0 in
    let kept = exit_after-found size between e (rw (first-found size first) refl) in
    let (name, left) =
      handled-found size (exit_name first.forced first.values) last (exit_after size between e)
        (kept ∙ first-found size first) in
    let (own, own_left) = first-handled size first in (own, name, own_left, left)
