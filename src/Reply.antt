-- ===== src/Reply.antt =====
-- djb_error, djb_presult and djb_result (server/djb.c): the calls that they make, first to last.
use jumpbox.Base.{ℕ, Bool, false, ◌==◌, Option, none, some, List, [], ◌∷◌, Text, txt}
use jumpbox.Http.{Event, answer_ok, error, expire, force, put, done, json}
use jumpbox.Http.{Status, djb_err, djb_ok, djb_done}
use jumpbox.Jansson.{Jansson}

abbrev pub djb_error : ℕ → ℕ → Text → List Event
djb_error hcl code msg = error hcl code msg ∷ expire hcl force ∷ done hcl ∷ []

abbrev pub djb_presult : ℕ → Text → List Event
djb_presult hcl msg = answer_ok hcl json ∷ expire hcl force ∷ put hcl msg ∷ done hcl ∷ []

-- l_statusnames
unfoldable pub status_name : Status → Text
status_name djb_err = txt "error"
status_name djb_ok = txt "ok"
status_name djb_done = txt "done"

-- The text of djb_result if JSON fails.
abbrev pub err_text : Text
err_text = txt "{\"status\": \"error\", \"message\": \"Error\" }"

-- Whether an event ends the request of a client.
abbrev pub ends : ℕ → Event → Bool
ends hcl (done a) = a == hcl
ends hcl _ = false

module _ (J : Jansson) where
  abbrev dumped : Option J.Json → Option Text
  dumped none = none
  dumped (some j) = J.dumps j

  abbrev or_err : Option Text → Text
  or_err none = err_text
  or_err (some buf) = buf

  unfoldable pub result_text : Status → Text → Text
  result_text status msg =
      or_err (dumped (J.pack_strings (txt "status") (status_name status) (txt "message") msg))

  unfoldable pub djb_result : ℕ → Status → Text → List Event
  djb_result hcl status msg = djb_presult hcl (result_text status msg)
