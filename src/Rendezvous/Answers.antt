-- ===== src/Rendezvous/Answers.antt =====
-- How the requests to server/rendezvous.c are answered, and the progress that is shown.
use jumpbox.Base.{
  ℕ, suc, ◌+◌, ◌*◌, ◌≡◌, ◌≤◌, ◌<◌, ◌↔◌, Bool, Option, none, some, List, [], ◌∷◌, ◌++◌, Text, txt,
  arith, length, strneq, ◌==◌, if◌then◌else◌, if_both, Option-cases, count_if, count_if-append,
  ==_refl, inl, inr,
}
use jumpbox.Http.{Client, Event, done, sendfile, expire, short, is_post}
use jumpbox.Reply.{djb_error, djb_presult, ends}
use jumpbox.Rendezvous.State.{Layer, Onion, Extracted, Rdv, World, tell, free_onion}
use jumpbox.Rendezvous.Image.{
  discard, server_error, keep_onion, decrypted, is_sound, image_body, rdv_image,
}
use jumpbox.Rendezvous.Pow.{rdv_attempts2percent, max_attempts}
use jumpbox.Rendezvous.Handle.{rdv_file, file_prefix}

-- While the progress is at most maxAttempts, which the worker leaves at its end, the percentage
-- is that of maxAttempts, rounded down, without overflow: at most 100, and 100 just at the end.
pub rdv_attempts2percent_bounds :
    (progress : ℕ)
    → progress ≤ max_attempts
    → let percent = rdv_attempts2percent progress in
      (percent * max_attempts ≤ progress * 100)
      × (progress * 100 < (percent + 1) * max_attempts)
      × (percent ≤ 100)
      × ((percent ≡ 100) ↔ (progress ≡ max_attempts))
unfolding rdv_attempts2percent
rdv_attempts2percent_bounds progress h = omega arith

-- Every text that begins so is a file that is served, whatever follows.
abbrev pub begins : Text → Bool
begins file = strneq file file_prefix (length file_prefix)

-- The times that the request of a client was ended.
abbrev pub ended : ℕ → Rdv → ℕ
ended hcl r = count_if (ends hcl) r.answers

ended-tell :
    (hcl : ℕ) (es : List Event) (r : Rdv)
    → ended hcl (tell es r) ≡ ended hcl r + count_if (ends hcl) es
ended-tell hcl es r = count_if-append (ends hcl) r.answers es

-- The answers to a body with an image.
abbrev pub image_ends : World → Text → Rdv → ℕ
image_ends w body r = if (w.extract_n_save r.l_password body).code == 0 then 1 else 2

discard-answers : (e : Extracted) (r : Rdv) → (discard e r).answers ≡ r.answers
discard-answers e r = elim (Option-cases e.image_path) [
  | inl h ↦ ground arith
  | inr (p, h) ↦ ground arith
]

keep_onion-ended :
    (hcl : ℕ) (e : Extracted) (o : Onion) (response : Option Text) (r : Rdv)
    → ended hcl (keep_onion hcl e o response r) ≡ ended hcl r + 1
keep_onion-ended hcl e o none r = ground (
  arith,
  discard-answers e r,
  ==_refl hcl,
  count_if-append (ends hcl) r.answers (djb_error hcl 400 (txt "server error")),
)
keep_onion-ended hcl e o (some response) r =
    ground (arith, ==_refl hcl, count_if-append (ends hcl) r.answers (djb_presult hcl response))

server_error-ended : (hcl : ℕ) (r : Rdv) → ended hcl (server_error hcl r) ≡ ended hcl r + 1
server_error-ended hcl r =
    ground (arith, ==_refl hcl, ended-tell hcl (djb_error hcl 400 (txt "server error")) r)

decrypted-ended :
    (w : World) (hcl : ℕ) (e : Extracted) (d : Option (ℕ × Layer)) (r : Rdv)
    → ended hcl (decrypted w hcl e d r) ≡ ended hcl r + 1
decrypted-ended w hcl e none r =
    ground (arith, server_error-ended hcl (discard e r), discard-answers e r)
decrypted-ended w hcl e (some (size, layer)) r =
    let q = record r { made = suc r.made } in
    let o : Onion = record { id = r.made; layer = layer } in
    if_both (λ (s : Rdv). ended hcl s ≡ ended hcl r + 1) (is_sound w size layer)
      (keep_onion-ended hcl e o _ q)
      (ground (arith, server_error-ended hcl (free_onion o (discard e q)), discard-answers e q))

image_body-ended :
    (w : World) (hcl : ℕ) (body : Text) (r : Rdv)
    → ended hcl (image_body w hcl body r) ≡ ended hcl r + image_ends w body r
image_body-ended w hcl body r =
    let e = w.extract_n_save r.l_password body in
    let msg = txt "extract_n_save() failure, see log)" in
    let q = tell (djb_error hcl 400 msg) r in
    ground (
      arith,
      decrypted-ended w hcl e (w.pwd_decrypt r.l_password e.encrypted_onion) r,
      server_error-ended hcl (discard e q),
      discard-answers e q,
      ended-tell hcl (djb_error hcl 400 msg) r,
      ==_refl hcl,
    )

-- How often a request with an image is ended.
abbrev pub times_ended : World → Client → Option Text → Rdv → ℕ
times_ended w c none r = if c.content_length == 0 then 1 else 0
times_ended w c (some body) r = image_ends w body r

-- How often rdv_image ends its request: once, but not while its body is still to be read, and
-- twice for a body from which extract_n_save extracts nothing.
pub rdv_image-ended :
    (w : World) (hcl : ℕ) (c : Client) (r : Rdv)
    → ended hcl (rdv_image w hcl c r)
      ≡ ended hcl r + (if is_post c.method then times_ended w c c.readbody r else 1)
unfolding rdv_image
rdv_image-ended w hcl c r = elim (Option-cases c.readbody) [
  | inl e ↦ ground (
    arith,
    ended-tell hcl (djb_error hcl 400 (txt "gen_request requires a POST")) r,
    ended-tell hcl (djb_error hcl 400 (txt "image" ++ txt " requires length")) r,
    ==_refl hcl,
  )
  | inr (body, e) ↦ ground (
    arith,
    ended-tell hcl (djb_error hcl 400 (txt "gen_request requires a POST")) r,
    image_body-ended w hcl body r,
    ==_refl hcl,
  )
]

-- rdv_file ends its request once if it serves the file, and twice if it refuses.
pub rdv_file-ended :
    (w : World) (hcl : ℕ) (file : Text) (r : Rdv)
    → ended hcl (rdv_file w hcl file r) ≡ ended hcl r + (if begins file then 1 else 2)
unfolding rdv_file
rdv_file-ended w hcl file r =
    let served = sendfile hcl file ∷ expire hcl short ∷ [] in
    let refused = djb_error hcl w.forbidden.0 w.forbidden.1 in
    ground (
      arith,
      ended-tell hcl (done hcl ∷ []) (tell served r),
      ended-tell hcl (done hcl ∷ []) (tell refused r),
      ended-tell hcl served r,
      ended-tell hcl refused r,
      ==_refl hcl,
    )
