-- ===== src/Tests/Rendezvous.antt =====
-- The theorems on the rendezvous at an onion with a proof of work, at a signed one and at a base.
use jumpbox.Base.{
  ℕ, ◌+◌, ◌≡◌, ◌≤◌, refl, true, false, not, ◌&&◌, Option, none, some, List, [], ◌∷◌, ◌++◌, Text,
  txt, ltb, if◌then◌else◌,
}
use jumpbox.Http.{Client, is_post, m_post}
use jumpbox.Jansson.{Jansson}
use jumpbox.Rendezvous.State.{Layer, Onion, Rdv, World, mining, base, pow, captcha, signed, initial}
use jumpbox.Rendezvous.Onions.{owned, frees}
use jumpbox.Rendezvous.Reset.{rdv_reset}
use jumpbox.Rendezvous.Image.{rdv_image}
use jumpbox.Rendezvous.Pow.{max_attempts, rdv_peel_pow, rdv_pow_worker}
use jumpbox.Rendezvous.Peel.{rdv_peel}
use jumpbox.Rendezvous.Runs.{Action, handles, works, run, lost_in, run-owns}
use jumpbox.Rendezvous.Resets.{rdv_reset-clears, rdv_reset-mining}
use jumpbox.Rendezvous.Answers.{ended, times_ended, rdv_image-ended}
use jumpbox.Rendezvous.Layers.{rdv_peel_pow-stale, rdv_peel-unverified, rdv_peel-captcha_path}
use jumpbox.Rendezvous.Work.{rdv_peel_pow-finishes}
use jumpbox.Tests.Fixtures.{Json, empty, net, ready, jansson, client}
use jumpbox.Tests.Fixtures

-- A layer of a kind.
abbrev layer : ℕ → Layer
layer kind = record { is_onion = true; kind = kind; size = 64; text = txt "{}"; puzzle = [] }

-- Every image holds an onion with a proof of work; no key is installed.
abbrev pub world : World
world = record {
  aprintf_ok = λ text. true;
  random = 5;
  params_code = 0;
  random_password = txt "password";
  request_url = λ secure host path query. (0, txt "/index.html");
  strerror = λ code. txt "error";
  extract_n_save = λ password body. record {
    code = 0;
    encrypted_onion = body;
    image_path = some (txt "/tmp/jpeg_steg_embed1/image.jpg");
    image_dir = txt "/tmp/jpeg_steg_embed1";
  };
  pwd_decrypt = λ password onion. some (64, layer pow);
  header_size = 16;
  beyond = λ kind. [];
  thread_add_ok = true;
  bytes2file_ok = λ path bytes. true;
  peel_captcha = λ answer onion. none;
  public_key_path = none;
  fopen_ok = λ path. false;
  verify = λ path onion. false;
  peel_signed = λ onion. some (layer base);
  path_separator = txt "/";
  forbidden = (403, txt "Forbidden");
}

abbrev J : Jansson
J = jansson (λ text. some empty)

-- What is posted to /rendezvous/ and a name.
abbrev posts : Text → Client
posts name = record (client 20 1 m_post) {
  uri = txt "/rendezvous/" ++ name;
  readbody = some (txt "{}");
  content_length = 2;
}

-- An image, two requests to peel with a worker between them, and a reset.
abbrev actions : List Action
actions =
    handles world 2 (posts (txt "image"))
    ∷ handles world 2 (posts (txt "peel"))
    ∷ works (λ onion. some (layer base)) 0
    ∷ works (λ onion. some (layer base)) 0
    ∷ handles world 2 (posts (txt "peel"))
    ∷ handles world 2 (posts (txt "reset"))
    ∷ []

run-owns_example :
    let r = (run J Fixtures.world actions (ready, initial)).1 in
    owned 0 r + frees 0 r + lost_in J Fixtures.world 0 actions (ready, initial)
    ≡ (if ltb 0 r.made then 1 else 0)
run-owns_example = run-owns J Fixtures.world 0 actions ready

abbrev onion : ℕ → ℕ → Onion
onion id kind = record { id = id; layer = layer kind }

-- At an onion of a kind.
abbrev standing : ℕ → Rdv
standing kind = record initial { l_current_onion = some (onion 0 kind); made = 1 }

rdv_reset-clears_example :
    let r = standing pow in
    let q = rdv_reset 2 r in
    let old = not r.l_pow_thread_started in
    (q.l_password ≡ [])
    × (q.l_current_onion ≡ none)
    × (q.l_current_image_path ≡ none)
    × (q.l_captcha_image_path ≡ none)
    × (q.l_pow_thread_started ≡ false)
    × (q.l_pow_thread_finished ≡ (old && r.l_pow_thread_finished))
    × (q.l_pow_inner_onion ≡ (if old then r.l_pow_inner_onion else none))
    × (q.workers ≡ r.workers)
rdv_reset-clears_example = rdv_reset-clears 2 (standing pow)

-- The worker of the proof of work computes.
abbrev busy : Rdv
busy = record (standing pow) { l_pow_thread_started = true; workers = mining (onion 0 pow) ∷ [] }

rdv_reset-mining_example :
    let q = rdv_reset 2 busy in
    let s = rdv_pow_worker (λ onion. some (layer base)) 0 q in
    (q.workers ≡ mining (onion 0 pow) ∷ [])
    × (1 ≤ frees 0 q)
    × (s.l_pow_thread_started ≡ false)
    × (s.l_pow_thread_finished ≡ true)
rdv_reset-mining_example =
    rdv_reset-mining 2 (onion 0 pow) busy (λ onion. some (layer base)) refl refl

-- A worker has ended after a reset, and there is a new onion.
abbrev stale : Rdv
stale = record (standing pow) {
  l_pow_thread_finished = true;
  l_pow_inner_onion = some (onion 1 base);
}

rdv_peel_pow-stale_example :
    let q = (rdv_peel_pow world (onion 0 pow) stale).0 in
    (q.l_pow_thread_started ≡ true)
    × ((rdv_peel_pow world (onion 0 pow) q).0.l_current_onion ≡ some (onion 1 base))
rdv_peel_pow-stale_example =
    rdv_peel_pow-stale world world (onion 0 pow) (onion 1 base) stale refl refl refl refl

rdv_image-ended_example :
    let c = posts (txt "image") in
    ended 2 (rdv_image world 2 c initial)
    ≡ ended 2 initial + (if is_post c.method then times_ended world c c.readbody initial else 1)
rdv_image-ended_example = rdv_image-ended world 2 (posts (txt "image")) initial

rdv_peel-unverified_example :
    (rdv_peel J Fixtures.world world 2
      (posts (txt "peel"))
      ready
      (standing signed)).1.l_current_onion
    ≡ some (onion 0 signed)
rdv_peel-unverified_example =
    rdv_peel-unverified J Fixtures.world world 2 (posts (txt "peel")) ready (onion 0 signed)
      (standing signed) refl refl refl

rdv_peel_pow-finishes_example :
    let r = standing pow in
    let solve : Layer → Option Layer = λ onion. some (layer base) in
    let done =
      rdv_pow_worker solve 0 (rdv_pow_worker solve 0 (rdv_peel_pow world (onion 0 pow) r).0) in
    let q = (rdv_peel_pow world (onion 0 pow) done).0 in
    (done.l_pow_thread_finished ≡ true)
    × (done.l_pow_thread_progress ≡ max_attempts)
    × (done.workers ≡ [])
    × (done.fault ≡ false)
    × (q.l_current_onion ≡ some (onion 1 base))
    × (q.l_pow_thread_started ≡ false)
rdv_peel_pow-finishes_example =
    rdv_peel_pow-finishes world world (onion 0 pow) (standing pow) (λ onion. some (layer base)) refl
      refl refl refl

-- A captcha is shown.
abbrev shown : Rdv
shown = record (standing captcha) { l_captcha_image_path = some (txt "/tmp/captcha") }

rdv_peel-captcha_path_example :
    (rdv_peel J Fixtures.world world 2 (posts (txt "peel")) ready shown).1.l_captcha_image_path
    ≡ some (txt "/tmp/captcha")
rdv_peel-captcha_path_example =
    rdv_peel-captcha_path J Fixtures.world world 2 (posts (txt "peel")) ready shown refl
