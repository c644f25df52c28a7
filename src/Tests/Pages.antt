-- ===== src/Tests/Pages.antt =====
-- The theorem on the status page at a list of two requests.
use jumpbox.Base.{◌≡◌, [], ◌∷◌, txt, arith}
use jumpbox.Http.{put}
use jumpbox.Pages.{joined}
use jumpbox.Pages.Tables.{djb_status_list}
use jumpbox.Pages.Listing.{table, djb_status_list-table}
use jumpbox.Tests.Fixtures.{clients, req}
use jumpbox.Tests.Dispatch

djb_status_list-table_example :
    let l = req 1 ∷ req 3 ∷ [] in
    djb_status_list Dispatch.status 2 clients l (txt "Proxy New") (txt "New")
    ≡ put 2 (
        joined (
          txt "<h1>List: "
          ∷ txt "Proxy New"
          ∷ txt "</h1>\n<p>\n"
          ∷ txt "New"
          ∷ txt ".\n</p>\n"
          ∷ []))
      ∷ table Dispatch.status 2 clients l
djb_status_list-table_example =
    djb_status_list-table Dispatch.status 2 clients (req 1 ∷ req 3 ∷ []) (txt "Proxy New")
      (txt "New") (omega arith)
