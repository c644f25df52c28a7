-- ===== src/Tests/Acs.antt =====
-- The theorems on the dance at a dancer with a NET, outside a dance and in one.
use jumpbox.Base.{
  text_eq, ◌≡◌, refl, true, false, not, ◌&&◌, ◌||◌, none, some, List, [], ◌∷◌, txt, length,
  if◌then◌else◌,
}
use jumpbox.Http.{Client, Headers, m_get, m_post}
use jumpbox.Jansson.{Jansson, object_at}
use jumpbox.Atoi.{atoi}
use jumpbox.Acs.Net.{acs_set_net, acs_when, acs_net_number, acs_net_string}
use jumpbox.Acs.Dance.{acs_initial_answer, acs_redirect_answer}
use jumpbox.Acs.Progress.{acs_exit, progress_begin, acs_handle}
use jumpbox.Acs.Locks.{AtRest}
use jumpbox.Acs.State.{Acs, acs_init, acs_status}
use jumpbox.Acs.Locks.Handlers.{acs_handle-AtRest}
use jumpbox.Acs.Runs.{
  Call, handles, initial_answered, redirect_answered, wakes, calls, calls-AtRest,
}
use jumpbox.Acs.Laws.{
  valid_at, acs_when-valid, acs_set_net_lem, acs_redirect_answer-ends, progress_begin-Goes,
}
use jumpbox.Acs.Redirect.{Redirects}
use jumpbox.Acs.Moonwalk.{acs_initial_answer-Redirects}
use jumpbox.Tests.Fixtures.{
  Json, member, num, empty, client, idle_proxy, jansson, net, no_headers, ready, in_dance, world,
}

abbrev J : Jansson
J = jansson (λ text. some net)

-- A client that asks for progress, and one that has read the body of an answer.
abbrev asks : Client
asks = record (client 5 1 m_get) { uri = txt "/acs/progress/" }

abbrev has_read : Client
has_read = record (client 6 1 m_post) { readbody = some (txt "bridges") }

abbrev success : Headers
success = record no_headers { httpcode = txt "200"; httptext = txt "OK" }

ready-AtRest : AtRest ready
ready-AtRest = record { status_free = refl; dancing_as = refl; sound = refl }

acs_handle-AtRest_example : AtRest (acs_handle J world 5 asks ready idle_proxy).0
acs_handle-AtRest_example = acs_handle-AtRest J world 5 asks ready idle_proxy ready-AtRest

-- A dance from its start to its end, and a request for progress that has waited.
abbrev dance : List (Call J)
dance =
    handles world 5 asks idle_proxy
    ∷ initial_answered world success 6 idle_proxy
    ∷ redirect_answered world has_read success 6 none idle_proxy
    ∷ wakes world 5
    ∷ []

calls-AtRest_example :
    AtRest (calls J dance (acs_init world ready))
    × AtRest (acs_exit J world (calls J dance (acs_init world ready)))
calls-AtRest_example = calls-AtRest J dance world world ready ready-AtRest

acs_when-valid_example :
    let (b, ok) = acs_when J world ready in
    (ok ≡ valid_at J world 150 (object_at J (some net) (txt "when")))
    × (b.l_dancing ≡ (ok && false))
acs_when-valid_example = acs_when-valid J world ready

acs_set_net_lem_example :
    let (b, ok) = acs_set_net J world (some empty) ready in
    (ok ≡ true) × (b.l_net ≡ some empty) × (b.l_dancing ≡ false)
acs_set_net_lem_example = acs_set_net_lem J world empty ready

acs_redirect_answer-ends_example :
    let (b, q, over, kept) =
      acs_redirect_answer J world has_read success 6 none in_dance idle_proxy in
    b.l_dancing ≡ (not over && true)
acs_redirect_answer-ends_example =
    acs_redirect_answer-ends J world has_read success 6 none in_dance idle_proxy

progress_begin-Goes_example :
    let (b, q) = progress_begin J world ready idle_proxy in
    (length q.proxy_new ≡ (if b.l_dancing && not false then 1 else 0))
    × (b.l_dancing ≡ (b.l_dancing || false))
progress_begin-Goes_example = progress_begin-Goes J world ready idle_proxy

-- A NET with a wait too: the dance goes on.
abbrev moon_net : Json
moon_net = member (txt "window") (num 5) (member (txt "wait") (num 2) net)

abbrev moon : Acs Json
moon = record in_dance { l_net = some moon_net }

acs_initial_answer-Redirects_example :
    let (b, q, over) = acs_initial_answer J world success 6 moon idle_proxy in
    Redirects J (some moon_net) idle_proxy (b, q)
unfolding text_eq txt
acs_initial_answer-Redirects_example =
    acs_initial_answer-Redirects J world (λ tick msecs. refl) success 6 moon idle_proxy refl refl

goes_on : (acs_initial_answer J world success 6 moon idle_proxy).0.l_dancing ≡ true
unfolding acs_initial_answer atoi txt acs_net_number acs_status text_eq acs_net_string
goes_on = refl
