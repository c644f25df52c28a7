-- ===== src/Rendezvous/Image.antt =====
-- rdv_image: the onion in an image (server/rendezvous.c).
use jumpbox.Base.{
  ℕ, suc, Bool, not, ◌&&◌, Option, none, some, List, [], ◌∷◌, ◌++◌, Text, txt, ltb, ◌==◌,
  if◌then◌else◌, get_elem?,
}
use jumpbox.Http.{Client, is_post}
use jumpbox.Reply.{djb_error, djb_presult}
use jumpbox.Rendezvous.State.{
  Layer, Onion, Extracted, Rdv, World, tell, touch, free_onion, aprintf, unlink,
}
use jumpbox.Rendezvous.Request.{with_body}

unfoldable pub onion_names : List Text
onion_names = txt "base" ∷ txt "pow" ∷ txt "captcha" ∷ txt "signed" ∷ txt "collection" ∷ []

abbrev pub name_or : Option Text → Text → Text
name_or none other = other
name_or (some name) other = name

-- Only an assertion that logs looks at the bound.
unfoldable pub rdv_onion_name : World → ℕ → Text
unfolding onion_names
rdv_onion_name w kind = name_or (get_elem? onion_names kind) (w.beyond kind)

unfoldable pub rdv_make_image_response : World → Text → ℕ → Option Text
rdv_make_image_response w path kind = aprintf w (
    txt "{ \"image\": \"/rendezvous/file"
    ++ (path ++ (txt "\", \"onion_type\": \"" ++ (rdv_onion_name w kind ++ txt "\"}"))))

-- What is left where no response was made: the files are unlinked, the directory, too, by unlink.
abbrev pub discard : Extracted → Rdv → Rdv
discard e r = elim e.image_path [
  | none ↦ r
  | some path ↦ touch (unlink e.image_dir) (touch (unlink path) r)
]

abbrev pub server_error : ℕ → Rdv → Rdv
server_error hcl r = tell (djb_error hcl 400 (txt "server error")) r

-- The onion is kept: those that the variables held are not freed, and their files stay.
abbrev pub keep_onion : ℕ → Extracted → Onion → Option Text → Rdv → Rdv
keep_onion hcl e o none r = server_error hcl (free_onion o (discard e r))
keep_onion hcl e o (some response) r = tell (djb_presult hcl response) (record r {
  l_current_onion = some o;
  l_current_image_path = e.image_path;
  l_current_image_dir = e.image_dir;
})

-- The tests of a decrypted onion.
abbrev pub is_sound : World → ℕ → Layer → Bool
is_sound w size layer = not (ltb size w.header_size) && (layer.is_onion && (size == layer.size))

abbrev pub path_of : Option Text → Text
path_of none = txt "(null)"
path_of (some path) = path

-- A decrypted onion is a new one.
abbrev pub decrypted : World → ℕ → Extracted → Option (ℕ × Layer) → Rdv → Rdv
decrypted w hcl e none r = server_error hcl (discard e r)
decrypted w hcl e (some (size, layer)) r =
    let o : Onion = record { id = r.made; layer = layer } in
    let q = record r { made = suc r.made } in
    if is_sound w size layer
    then keep_onion hcl e o (rdv_make_image_response w (path_of e.image_path) layer.kind) q
    else server_error hcl (free_onion o (discard e q))

abbrev pub image_body : World → ℕ → Text → Rdv → Rdv
image_body w hcl body r =
    let e = w.extract_n_save r.l_password body in
    if e.code == 0
    then decrypted w hcl e (w.pwd_decrypt r.l_password e.encrypted_onion) r
    else server_error hcl
        (discard e (tell (djb_error hcl 400 (txt "extract_n_save() failure, see log)")) r))

unfoldable pub rdv_image : World → ℕ → Client → Rdv → Rdv
unfolding rdv_make_image_response rdv_onion_name
rdv_image w hcl c r =
    if is_post c.method
    then with_body hcl (txt "image") c c.readbody (image_body w hcl) r
    else tell (djb_error hcl 400 (txt "gen_request requires a POST")) r
