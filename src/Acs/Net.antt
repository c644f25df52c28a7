-- ===== src/Acs/Net.antt =====
-- The NET: acs_set_net, acs_setup, and the functions that read its members (server/acs.c).
use jumpbox.Base.{
  ℕ, Bool, true, false, Option, none, some, List, [], ◌++◌, Text, txt, ltb, leb, ◌==◌,
  if◌then◌else◌,
}
use jumpbox.Http.{Client, Event, djb_err, djb_ok, is_post}
use jumpbox.Jansson.{Jansson, object_at}
use jumpbox.Reply.{djb_error, djb_result}
use jumpbox.Acs.State.{Acs, World, lock_dancing, unlock_dancing, ticked, acs_status, acs_sitdown}

module _ (J : Jansson) (w : World) where
  abbrev pub dumped_net : Option Text → Acs J.Json → Acs J.Json
  dumped_net none a = a
  dumped_net (some j) a = acs_status w djb_ok (txt "NET: " ++ j) a

  unfoldable pub acs_check_net : J.Json → Acs J.Json → Acs J.Json × Bool
  acs_check_net net a =
      if J.is_object net
      then (a, true)
      else (acs_status w djb_err (txt "Provided NET is not a JSON object") a, false)

  abbrev pub checked_net : J.Json → Acs J.Json × Bool → Acs J.Json
  checked_net net (a, true) =
      acs_status w djb_ok (txt "Ready to Dance") (dumped_net (J.dumps_ascii net) a)
  checked_net net (a, false) = record a { l_net = none }

  abbrev pub new_net : Option J.Json → Acs J.Json → Acs J.Json
  new_net none a = a
  new_net (some net) a = checked_net net (acs_check_net net a)

  -- The references of the objects are not counted.
  unfoldable pub acs_set_net : Option J.Json → Acs J.Json → Acs J.Json × Bool
  unfolding acs_check_net
  acs_set_net net a =
      if a.l_dancing
      then (
        acs_status w djb_err (txt "Already dancing, can't replace NET")
            (unlock_dancing (lock_dancing a)),
        false,
      )
      else (unlock_dancing (new_net net (record (lock_dancing a) { l_net = net })), true)

  abbrev pub missing : Text → Acs J.Json → Acs J.Json
  missing desc a = acs_sitdown (acs_status w djb_err (txt "No " ++ (desc ++ txt " in NET")) a)

  abbrev pub string_of : Option J.Json → Text → Acs J.Json → Acs J.Json × Option Text
  string_of none desc a = (missing desc a, none)
  string_of (some j) desc a =
      if J.is_string j then (a, some (J.string_value j)) else (missing desc a, none)

  unfoldable pub acs_net_string : Text → Text → Acs J.Json → Acs J.Json × Option Text
  acs_net_string var desc a = string_of (object_at J a.l_net var) desc a

  abbrev pub number_of : Option J.Json → Text → Acs J.Json → Acs J.Json × Option ℕ
  number_of none desc a = (missing desc a, none)
  number_of (some j) desc a =
      if J.is_number j then (a, some (J.number_value j)) else (missing desc a, none)

  unfoldable pub acs_net_number : Text → Text → Acs J.Json → Acs J.Json × Option ℕ
  acs_net_number var desc a = number_of (object_at J a.l_net var) desc a

  -- A failed test of "when" ends the dance.
  abbrev pub refuse_when : Text → Acs J.Json → Acs J.Json × Bool
  refuse_when msg a = (acs_sitdown (acs_status w djb_err msg a), false)

  abbrev pub when_interval : Text → Option (ℕ × ℕ) → Acs J.Json → Acs J.Json × Bool
  when_interval when none a =
      refuse_when (txt "NET when (" ++ (when ++ txt ") format is invalid")) a
  when_interval when (some (start, end)) a =
      let now = w.now a.tick in
      if ltb now start
      then refuse_when
          (txt "NET when (" ++ (when ++ txt ") makes Discovery Provisioning not valid yet"))
          (ticked a)
      else (if leb end now
          then refuse_when
              (txt "NET when (" ++ (when ++ txt ") notes that Discovery Provisioning expired"))
              (ticked a)
          else (
            acs_status w djb_ok
                (txt "NET 'when' (" ++ (when ++ txt ") indicates it is currently valid"))
                (ticked a),
            true,
          ))

  abbrev pub when_value : Option J.Json → Acs J.Json → Acs J.Json × Bool
  when_value none a = (acs_status w djb_ok (txt "No NET 'when' thus NET is always valid") a, true)
  when_value (some j) a =
      if J.is_string j
      then when_interval (J.string_value j) (w.parse_interval (J.string_value j)) a
      else refuse_when (txt "NET 'when' is not a string, thus invalid") a

  unfoldable pub acs_when : Acs J.Json → Acs J.Json × Bool
  acs_when a = when_value (object_at J a.l_net (txt "when")) a

  -- The state, the answer to the client, and whether the request is handled.
  abbrev pub Handled : Type 0
  Handled = Acs J.Json × List Event × Bool

  abbrev pub setup_root : ℕ → Option J.Json → Acs J.Json → Handled
  setup_root hcl none a = (a, [], true)
  setup_root hcl (some root) a =
      let (b, ok) = acs_set_net (some root) a in
      if ok
      then (b, djb_result J hcl djb_ok (txt "ACS setup successful"), true)
      else (b, djb_result J hcl djb_err (txt "Could not setup NET"), false)

  abbrev pub setup_body : ℕ → Client → Option Text → Acs J.Json → Handled
  setup_body hcl c (some body) a = setup_root hcl (J.loads body) a
  setup_body hcl c none a =
      if c.content_length == 0
      then (a, djb_error hcl 400 (txt "setup requires length"), true)
      else (if w.readbody_alloc_ok a.tick
          then (ticked a, [], false)
          else (ticked a, djb_result J hcl djb_err (txt "Out of Memory"), true))

  unfoldable pub acs_setup : ℕ → Client → Acs J.Json → Handled
  unfolding acs_set_net
  acs_setup hcl c a =
      if is_post c.method
      then setup_body hcl c c.readbody a
      else (a, djb_result J hcl djb_err (txt "Setup requires a POST to provide the NET"), true)
