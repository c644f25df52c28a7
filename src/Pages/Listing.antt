-- ===== src/Pages/Listing.antt =====
-- The lists of requests on the status page (server/djb.c), against the page that they should make.
use jumpbox.Base.{
  ℕ, suc, ◌+◌, ◌%◌, ◌^◌, ◌<◌, ◌≡◌, refl, ap, List, [], ◌∷◌, ◌++◌, Text, txt, arith, length, map,
}
use jumpbox.Http.{Client, Event, put}
use jumpbox.Proxy.Queues.{Req}
use jumpbox.Pages.{joined}
use jumpbox.Pages.Tables.{World, requests_head, request_row, list_rows, djb_status_list}

module _ (w : World) (hcl : ℕ) (client : ℕ → Client) where
  abbrev pub row_of : Req → Event
  row_of r = put hcl (request_row w client r)

  -- A table with a row for each request, or a sentence.
  abbrev pub table : List Req → List Event
  table [] = put hcl (txt "No outstanding requests.") ∷ []
  table (r ∷ rs) = put hcl requests_head ∷ map row_of (r ∷ rs) ++ put hcl (txt "</table>\n") ∷ []

  abbrev Rows : ℕ → List Req → List Event × ℕ → Type 0
  Rows cnt l found = (found.0 ≡ map row_of l) × (found.1 ≡ cnt + length l)

  list_rows-Rows :
      (cnt : ℕ) (l : List Req)
      → 0 < cnt
      → cnt + length l < 2 ^ 32
      → Rows cnt l (list_rows w hcl client cnt l)
  unfolding list_rows
  list_rows-Rows cnt [] h k = (refl, omega arith)
  list_rows-Rows cnt (r ∷ rs) h k =
      let e : suc cnt % 2 ^ 32 ≡ suc cnt = omega (arith, k) in
      let rest = list_rows-Rows (suc cnt) rs (omega arith) (omega (arith, k)) in
      ground (arith, ap (λ n. list_rows w hcl client n rs) e, rest)

  -- With less than 2 ^ 32 requests, where the count does not wrap to 0, djb_status_list writes the
  -- title and the description, and then a table with a head and a row for each request in the
  -- list's order, or, for an empty list, that there are none.
  pub djb_status_list-table :
      (l : List Req) (title desc : Text)
      → length l < 2 ^ 32
      → djb_status_list w hcl client l title desc
        ≡ put hcl
            (joined (txt "<h1>List: " ∷ title ∷ txt "</h1>\n<p>\n" ∷ desc ∷ txt ".\n</p>\n" ∷ []))
          ∷ table l
  unfolding djb_status_list list_rows
  djb_status_list-table [] title desc h = refl
  djb_status_list-table (r ∷ rs) title desc h =
      ground (arith, list_rows-Rows 1 rs (omega arith) (omega (arith, h)))
