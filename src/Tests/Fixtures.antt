-- ===== src/Tests/Fixtures.antt =====
-- Test data: a small JSON library, clients and queues.
use jumpbox.Base.{
  ℕ, Bool, true, false, Option, none, some, List, [], ◌∷◌, Text, txt, text_eq, if◌then◌else◌, ◌==◌,
  ◌+◌,
}
use jumpbox.Http.{Client, Headers, Method, m_get, m_post, djb_ok}
use jumpbox.Jansson.{Jansson}
use jumpbox.Proxy.Queues.{Req, Proxy}
use jumpbox.Acs.State.{Acs, World}

-- An object is a chain of members, an array a chain of items.
pub data Json : Type 0 where
  str : Text → Json
  num : ℕ → Json
  empty nil : Json
  member : Text → Json → Json → Json
  item : Json → Json → Json

abbrev is_obj : Json → Bool
is_obj empty = true
is_obj (member k v rest) = true
is_obj _ = false

abbrev is_arr : Json → Bool
is_arr nil = true
is_arr (item v rest) = true
is_arr _ = false

abbrev is_str : Json → Bool
is_str (str t) = true
is_str _ = false

abbrev is_num : Json → Bool
is_num (num n) = true
is_num _ = false

abbrev get : Json → Text → Option Json
get (member k v rest) key = let found = get rest key in if text_eq k key then some v else found
get _ key = none

abbrev text_of : Json → Text
text_of (str t) = t
text_of _ = []

abbrev value_of : Json → ℕ
value_of (num n) = n
value_of _ = 0

abbrev items_of : Json → List Json
items_of (item v rest) = v ∷ items_of rest
items_of _ = []

abbrev array_of : List Json → Json
array_of [] = nil
array_of (j ∷ js) = item j (array_of js)

-- `read` stands for the parser.
abbrev pub jansson : (Text → Option Json) → Jansson
jansson read = record {
  Json = Json;
  loads = read;
  dumps = λ j. some (txt "{}");
  dumps_ascii = λ j. some (txt "{}");
  is_object = is_obj;
  is_array = is_arr;
  is_string = is_str;
  is_number = is_num;
  is_true = λ j. false;
  object_get = get;
  string_value = text_of;
  number_value = value_of;
  array_items = items_of;
  array_ok = true;
  pack_strings = λ k v l w. some (member k (str v) (member l (str w) empty));
  pack_array = λ k js. some (member k (array_of js) empty);
  raw = λ j. [];
}

abbrev pub no_headers : Headers
no_headers = record {
  push = none;
  httpcode = [];
  httptext = [];
  seqno = [];
  setcookie = [];
  cookie = [];
}

-- A client on connection `id` with its request number `reqid`.
abbrev pub client : ℕ → ℕ → Method → Client
client id reqid method = record {
  id = id;
  reqid = reqid;
  method = method;
  hostname = txt "example.org";
  uri = txt "/pull/";
  rawuri = txt "/pull/";
  content_type = [];
  content_length = 0;
  the_headers = [];
  readbody = none;
  user = none;
  valid = true;
  handling = true;
  keephandling = false;
}

-- The browser is client 1, the plugin that pulls is client 2, the one that pushes is client 3.
abbrev pub clients : ℕ → Client
clients a = if a == 1 then client 10 7 m_get else client (a + 20) 1 m_post

abbrev pub req : ℕ → Req
req hcl = record { hcl = hcl; phcl_id = 0 }

abbrev pub idle_proxy : Proxy
idle_proxy = record { proxy_new = []; proxy_out = []; api_pull = []; client = clients; log = [] }

abbrev pub methodname : Method → Text
methodname m_get = txt "GET"
methodname _ = txt "POST"

abbrev pub world : World
world = record {
  snprintfok = λ len size. true;
  calloc_ok = λ tick. true;
  keep_running = λ tick. true;
  sleep = λ tick msecs. true;
  random = λ tick. 3;
  newcl = λ tick. some 9;
  readbody_alloc_ok = λ tick. true;
  parse_interval = λ text. some (100, 200);
  steg_decode = λ body ctype. some body;
  now = λ tick. 150;
}

-- A NET with both gateways, an interval and a wait, a dancer that has it, and the same in a dance.
abbrev pub net : Json
net =
    member (txt "initial") (str (txt "a.example")) (
      member (txt "redirect") (str (txt "b.example")) (member (txt "when") (str (txt "now")) empty))

abbrev pub ready : Acs Json
ready = record {
  l_status = djb_ok;
  l_message = txt "Ready to Dance";
  l_messages = [];
  l_dancing = false;
  l_net = some net;
  status_held = false;
  dancing_held = false;
  broken = false;
  tick = 0;
}

abbrev pub in_dance : Acs Json
in_dance = record ready { l_dancing = true }
