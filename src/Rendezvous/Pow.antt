-- ===== src/Rendezvous/Pow.antt =====
-- The layer with a proof of work: rdv_peel_pow, and the thread rdv_pow_worker that it starts
-- (server/rendezvous.c). The thread runs while other requests are served, so it is cut into steps.
use jumpbox.Base.{
  ℕ, zero, suc, ◌*◌, ◌/◌, ◌%◌, ◌^◌, true, not, Option, none, some, List, [], ◌∷◌, ◌++◌, Text, txt,
  if◌then◌else◌,
}
use jumpbox.Decimal.{print_decimal}
use jumpbox.Rendezvous.State.{Layer, Onion, Worker, begun, mining, Rdv, World, free_onion, aprintf}
use jumpbox.Rendezvous.Reset.{rdv_pow_reset}
use jumpbox.Rendezvous.Image.{rdv_onion_name}

abbrev pub max_attempts : ℕ
max_attempts = 26 * 26 * 26 * 26 * 26

-- unsigned long current = progress; unsigned int retval = (current * 100) / maxAttempts
unfoldable pub rdv_attempts2percent : ℕ → ℕ
rdv_attempts2percent progress = progress * 100 % 2 ^ 64 / max_attempts % 2 ^ 32

abbrev pub rest_of_response : World → ℕ → Text → Text
rest_of_response w kind status =
    txt "\"status\": \""
    ++ (status ++ (txt "\", \"onion_type\": \"" ++ (rdv_onion_name w kind ++ txt "\"}")))

-- The kind is that of l_current_onion.
unfoldable pub rdv_make_peel_response : World → ℕ → Text → Text → Option Text
rdv_make_peel_response w kind info status =
    aprintf w (txt "{ \"info\": \"" ++ (info ++ (txt "\", " ++ rest_of_response w kind status)))

unfoldable pub rdv_make_pow_response : World → ℕ → ℕ → Text → Option Text
rdv_make_pow_response w kind percent status =
    aprintf w (
      txt "{ \"info\": " ++ (print_decimal percent ++ (txt ", " ++ rest_of_response w kind status)))

-- What a layer answers: the new state, and the response, `none` if there is no memory for it.
abbrev pub Peeled : Type 0
Peeled = Rdv × Option Text

abbrev pub start_worker : World → Onion → Rdv → Peeled
start_worker w o r =
    if w.thread_add_ok
    then (
      record r { l_pow_thread_started = true; workers = r.workers ++ begun ∷ [] },
      rdv_make_pow_response w o.layer.kind (rdv_attempts2percent r.l_pow_thread_progress)
          (txt "OK the Proof-Of-Work has commenced"),
    )
    else (r, rdv_make_peel_response w o.layer.kind [] (txt "Creating the Proof-Of-Work failed :-("))

-- The worker has finished: its result becomes the current onion.
abbrev pub take_inner : World → Onion → Option Onion → Rdv → Peeled
take_inner w o none r =
    (r, rdv_make_peel_response w o.layer.kind [] (txt "Proof of work FAILED?!?"))
take_inner w o (some inner) r = (
  rdv_pow_reset
      (record (free_onion o r) { l_current_onion = some inner; l_pow_inner_onion = none }),
  rdv_make_pow_response w o.layer.kind 100 (txt "Your Proof-Of-Work has finished successfully!"),
)

-- `o` is l_current_onion.
unfoldable pub rdv_peel_pow : World → Onion → Rdv → Peeled
unfolding rdv_pow_reset rdv_attempts2percent rdv_make_peel_response rdv_make_pow_response
rdv_peel_pow w o r =
    if not r.l_pow_thread_started
    then start_worker w o r
    else (if not r.l_pow_thread_finished
        then (
          r,
          rdv_make_pow_response w o.layer.kind (rdv_attempts2percent r.l_pow_thread_progress)
              (txt "Working away..."),
        )
        else take_inner w o r.l_pow_inner_onion r)

-- The workers but one, and that one.
unfoldable pub pick_worker : ℕ → List Worker → Option Worker × List Worker
pick_worker i [] = (none, [])
pick_worker zero (x ∷ xs) = (some x, xs)
pick_worker (suc i) (x ∷ xs) = let (found, rest) = pick_worker i xs in (found, x ∷ rest)

-- The thread reads l_current_onion.
abbrev pub start_mining : Option Onion → List Worker → Rdv → Rdv
start_mining none rest r = record r { workers = rest; fault = true }
start_mining (some o) rest r = record r { workers = mining o ∷ rest }

-- The result of defiant_pow_aux, made from what the worker has read.
abbrev pub finish_mining : Option Layer → List Worker → Rdv → Rdv
finish_mining none rest r = record r {
  workers = rest;
  l_pow_inner_onion = none;
  l_pow_thread_progress = max_attempts;
  l_pow_thread_finished = true;
}
finish_mining (some layer) rest r = record r {
  workers = rest;
  made = suc r.made;
  l_pow_inner_onion = some (record { id = r.made; layer = layer });
  l_pow_thread_progress = max_attempts;
  l_pow_thread_finished = true;
}

-- defiant_pow_aux as a function of the layer; the first argument is that function.
abbrev pub worker_step : (Layer → Option Layer) → Option Worker × List Worker → Rdv → Rdv
worker_step solve (none, rest) r = r
worker_step solve (some begun, rest) r = start_mining r.l_current_onion rest r
worker_step solve (some (mining o), rest) r = finish_mining (solve o.layer) rest r

-- The next step of the worker at a position.
unfoldable pub rdv_pow_worker : (Layer → Option Layer) → ℕ → Rdv → Rdv
unfolding pick_worker
rdv_pow_worker solve i r = worker_step solve (pick_worker i r.workers) r
