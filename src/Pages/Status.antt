-- ===== src/Pages/Status.antt =====
-- The status page: djb_status (server/djb.c).
use jumpbox.Base.{ℕ, List, [], ◌∷◌, ◌++◌, Text, txt}
use jumpbox.Http.{Event, answer_ok, put, done, html}
use jumpbox.Proxy.Queues.{Proxy}
use jumpbox.Pages.{joined, djb_html_top, djb_html_tail}
use jumpbox.Pages.Tables.{World, djb_status_list, djb_status_processes, djb_status_threads}

unfoldable pub djb_status_httpsrv : World → ℕ → List Event
djb_status_httpsrv w hcl =
    put hcl (
      joined (
        txt "<h2>JumpBox HTTP Server Sessions</h2>\n"
        ∷ txt "<p>\n"
        ∷ txt "Following sessions are currently running in the HTTP Server.\n"
        ∷ txt "</p>\n"
        ∷ txt "\n"
        ∷ []))
    ∷ put hcl w.sessions
    ∷ []

abbrev pub detail : Text → Text → Text
detail name value = txt "<tr><th>" ++ (name ++ (txt ":</th><td>" ++ (value ++ txt "</td></tr>\n")))

unfoldable pub djb_status_version : World → ℕ → List Event
djb_status_version w hcl =
    put hcl (
      joined (
        txt "<h2>JumpBox Information</h2>\n"
        ∷ txt "<p>\n"
        ∷ txt "Following details are available about this JumpBox (djb).\n"
        ∷ txt "</p>\n"
        ∷ txt "\n"
        ∷ txt "<table>\n"
        ∷ detail (txt "Version") w.version
        ∷ detail (txt "GIT origin") w.git_orig
        ∷ detail (txt "GIT branch") w.git_brch
        ∷ detail (txt "GIT hash") w.git_hash
        ∷ detail (txt "GIT time") w.git_time
        ∷ txt "</table>\n"
        ∷ []))
    ∷ []

unfoldable pub djb_status : World → ℕ → Proxy → List Event
unfolding djb_html_top djb_status_version djb_status_threads djb_status_processes djb_status_list
    djb_status_httpsrv djb_html_tail
djb_status w hcl p =
    let lists = djb_status_list w hcl p.client in
    answer_ok hcl html ∷ djb_html_top hcl
    ++ (djb_status_version w hcl
        ++ (djb_status_threads w hcl
            ++ (djb_status_processes w hcl
                ++ (lists p.proxy_new (txt "Proxy New") (txt "New unforwarded requests")
                    ++ (lists p.proxy_out (txt "Proxy Out")
                          (txt "Outstanding queries (answer to pull, waiting for a push)")
                        ++ (lists p.api_pull (txt "API Pull")
                              (txt "Requests that want a pull, waiting for proxy_new entry")
                            ++ (djb_status_httpsrv w hcl
                                ++ (djb_html_tail hcl ++ done hcl ∷ []))))))))
