-- ===== src/Pages/Tables.antt =====
-- The tables of the status page: requests, processes and threads (server/djb.c).
use jumpbox.Base.{ℕ, suc, ◌%◌, ◌^◌, Bool, List, [], ◌∷◌, ◌++◌, Text, txt, ◌==◌, if◌then◌else◌}
use jumpbox.Http.{Client, Event, put}
use jumpbox.Decimal.{print_decimal}
use jumpbox.Proxy.Queues.{Req}
use jumpbox.Pages.{joined}

-- What libfutil tells its callback of a process, and of a thread.
pub record Process : Type 0 where
  pub tnum : ℕ
  pub tid : ℕ
  pub starttime : Text
  pub runningsecs : ℕ
  pub description : Text
  pub state : Text
  pub logfile : Text

pub record Thread : Type 0 where
  pub tnum : ℕ
  pub tid : ℕ
  pub starttime : Text
  pub runningsecs : ℕ
  pub description : Text
  pub thisthread : Bool
  pub state : Text
  pub message : Text
  pub served : ℕ

-- What the page takes from libfutil: what process_list and thread_list walk through, the page's
-- part of httpsrv_sessions, the formats HCL_IDn and THREAD_IDn, yesno, the line of a client's
-- request; and the macros of the version.
pub record World : Type 0 where
  pub processes : List Process
  pub threads : List Thread
  pub sessions : Text
  pub hcl_id : ℕ → Text
  pub thread_id : ℕ → Text
  pub yesno : Bool → Text
  pub the_request : ℕ → Text
  pub version : Text
  pub git_orig : Text
  pub git_brch : Text
  pub git_hash : Text
  pub git_time : Text

-- A cell of a table, and a row of cells.
abbrev pub cell : Text → Text
cell t = txt "<td>" ++ (t ++ txt "</td>")

abbrev pub cells : List Text → Text
cells [] = txt "</tr>\n"
cells (t ∷ ts) = cell t ++ cells ts

abbrev pub row : List Text → Text
row ts = txt "<tr>" ++ cells ts

unfoldable pub requests_head : Text
requests_head = joined (
    txt "<table>\n"
    ∷ txt "<tr>\n"
    ∷ txt "<th>ID</th>\n"
    ∷ txt "<th>ReqID</th>\n"
    ∷ txt "<th>Host</th>\n"
    ∷ txt "<th>Request</th>\n"
    ∷ txt "</tr>\n"
    ∷ [])

abbrev pub request_row : World → (ℕ → Client) → Req → Text
request_row w client r =
    let c = client r.hcl in
    row (w.hcl_id c.id ∷ print_decimal c.reqid ∷ c.hostname ∷ w.the_request r.hcl ∷ [])

-- The loop, with the count so far, and the count at its end, an unsigned int.
unfoldable pub list_rows : World → ℕ → (ℕ → Client) → ℕ → List Req → List Event × ℕ
list_rows w hcl client cnt [] = ([], cnt)
list_rows w hcl client cnt (r ∷ rs) =
    let (es, n) = list_rows w hcl client (suc cnt % 2 ^ 32) rs in
    (
      (if cnt == 0 then put hcl requests_head ∷ [] else [])
          ++ (put hcl (request_row w client r) ∷ es),
      n,
    )

unfoldable pub djb_status_list : World → ℕ → (ℕ → Client) → List Req → Text → Text → List Event
unfolding list_rows
djb_status_list w hcl client l title desc =
    let (rows, cnt) = list_rows w hcl client 0 l in
    put hcl (joined (txt "<h1>List: " ∷ title ∷ txt "</h1>\n<p>\n" ∷ desc ∷ txt ".\n</p>\n" ∷ []))
      ∷ rows
    ++ (if cnt == 0
        then put hcl (txt "No outstanding requests.") ∷ []
        else put hcl (txt "</table>\n") ∷ [])

unfoldable pub processes_head : Text
processes_head = joined (
    txt "<h1>Processes</h1>\n"
    ∷ txt "<p>\n"
    ∷ txt "Processes started by JumpBox.\n"
    ∷ txt "</p>\n"
    ∷ txt "<table>\n"
    ∷ txt "<tr>\n"
    ∷ txt "<th>Num</th>\n"
    ∷ txt "<th>PID</th>\n"
    ∷ txt "<th>Start Time</th>\n"
    ∷ txt "<th>Running seconds</th>\n"
    ∷ txt "<th>Description</th>\n"
    ∷ txt "<th>State</th>\n"
    ∷ txt "<th>Logfile</th>\n"
    ∷ txt "</tr>\n"
    ∷ [])

unfoldable pub djb_status_processes_cb : Process → Text
djb_status_processes_cb p = row (
    print_decimal p.tnum
    ∷ print_decimal p.tid
    ∷ p.starttime
    ∷ print_decimal p.runningsecs
    ∷ p.description
    ∷ p.state
    ∷ p.logfile
    ∷ [])

-- process_list calls its callback for each process, and counts them.
abbrev pub process_list : ℕ → List Process → List Event × ℕ
process_list hcl [] = ([], 0)
process_list hcl (p ∷ ps) =
    let (es, n) = process_list hcl ps in (put hcl (djb_status_processes_cb p) ∷ es, suc n)

unfoldable pub djb_status_processes : World → ℕ → List Event
unfolding processes_head djb_status_processes_cb
djb_status_processes w hcl =
    let (rows, cnt) = process_list hcl w.processes in
    put hcl processes_head ∷ rows
    ++ (put hcl (txt "</table>\n")
        ∷ (if cnt == 0 then put hcl (txt "No processes where launched") ∷ [] else []))

unfoldable pub threads_head : Text
threads_head = joined (
    txt "<h1>Threads</h1>\n"
    ∷ txt "<p>\n"
    ∷ txt "Threads running inside JumpBox.\n"
    ∷ txt "</p>\n"
    ∷ txt "<table>\n"
    ∷ txt "<tr>\n"
    ∷ txt "<th>Num</th>\n"
    ∷ txt "<th>TID</th>\n"
    ∷ txt "<th>Start Time</th>\n"
    ∷ txt "<th>Running seconds</th>\n"
    ∷ txt "<th>Description</th>\n"
    ∷ txt "<th>This Thread</th>\n"
    ∷ txt "<th>State</th>\n"
    ∷ txt "<th>Message</th>\n"
    ∷ txt "<th>Served</th>\n"
    ∷ txt "</tr>\n"
    ∷ [])

unfoldable pub djb_status_threads_cb : World → Thread → Text
djb_status_threads_cb w t = row (
    print_decimal t.tnum
    ∷ w.thread_id t.tid
    ∷ t.starttime
    ∷ print_decimal t.runningsecs
    ∷ t.description
    ∷ w.yesno t.thisthread
    ∷ t.state
    ∷ t.message
    ∷ print_decimal t.served
    ∷ [])

abbrev pub thread_list : World → ℕ → List Thread → List Event × ℕ
thread_list w hcl [] = ([], 0)
thread_list w hcl (t ∷ ts) =
    let (es, n) = thread_list w hcl ts in (put hcl (djb_status_threads_cb w t) ∷ es, suc n)

unfoldable pub djb_status_threads : World → ℕ → List Event
unfolding threads_head djb_status_threads_cb
djb_status_threads w hcl =
    let (rows, cnt) = thread_list w hcl w.threads in
    put hcl threads_head ∷ rows
    ++ (put hcl (txt "</table>\n")
        ∷ (if cnt == 0 then put hcl (txt "Odd, no threads where found running!?") ∷ [] else []))
