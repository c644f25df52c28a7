-- ===== src/Rendezvous/State.antt =====
-- The variables of server/rendezvous.c, and what it calls of libdefiance, libfutil and libc.
use jumpbox.Base.{ℕ, Bool, false, Option, none, some, List, [], ◌∷◌, ◌++◌, Text, if◌then◌else◌}
use jumpbox.Http.{Event}

-- What an onion's macros read of its bytes: ONION_IS_ONION, ONION_TYPE, ONION_SIZE, ONION_DATA as a
-- C string, and ONION_PUZZLE.
pub record Layer : Type 0 where
  pub is_onion : Bool
  pub kind : ℕ
  pub size : ℕ
  pub text : Text
  pub puzzle : Text

-- An onion_t: which of the onions that the libraries have made, and what it holds.
pub record Onion : Type 0 where
  pub id : ℕ
  pub layer : Layer

-- enum onion_type, in the order of onion_names
abbrev pub base : ℕ
base = 0

abbrev pub pow : ℕ
pow = 1

abbrev pub captcha : ℕ
captcha = 2

abbrev pub signed : ℕ
signed = 3

-- The results of extract_n_save: `code` is DEFIANT_OK if it is 0.
pub record Extracted : Type 0 where
  pub code : ℕ
  pub encrypted_onion : Text
  pub image_path : Option Text
  pub image_dir : Text

-- The outcome of each call that one request makes. A code of 0 is DEFIANT_OK; aprintf fails or
-- not by the text that it would make; `beyond` is what stands behind the array onion_names.
pub record World : Type 0 where
  pub aprintf_ok : Text → Bool
  pub random : ℕ
  pub params_code : ℕ
  pub random_password : Text
  pub request_url : Bool → Text → Text → Option Text → ℕ × Text
  pub strerror : ℕ → Text
  pub extract_n_save : Text → Text → Extracted
  pub pwd_decrypt : Text → Text → Option (ℕ × Layer)
  pub header_size : ℕ
  pub beyond : ℕ → Text
  pub thread_add_ok : Bool
  pub bytes2file_ok : Text → Text → Bool
  pub peel_captcha : Text → Layer → Option Layer
  pub public_key_path : Option Text
  pub fopen_ok : Text → Bool
  pub verify : Text → Layer → Bool
  pub peel_signed : Layer → Option Layer
  pub path_separator : Text
  pub forbidden : ℕ × Text  -- HTTPSRV_HTTP_FORBIDDEN

-- A call on the file system.
pub data FileOp : Type 0 where
  unlink rmdir : Text → FileOp

-- A worker of the proof of work before it has read l_current_onion, or with what it read.
pub data Worker : Type 0 where
  begun : Worker
  mining : Onion → Worker

-- The module's variables, the threads that run rdv_pow_worker, the number of onions that the
-- libraries have made, the ids of those that were freed, and the calls on files and clients, first
-- to last. `fault` says that NULL was read through.
pub record Rdv : Type 0 where
  pub l_password : Text
  pub l_current_onion : Option Onion
  pub l_current_image_path : Option Text
  pub l_current_image_dir : Text
  pub l_captcha_image_path : Option Text
  pub l_pow_thread_started : Bool
  pub l_pow_thread_finished : Bool
  pub l_pow_thread_quit : Bool
  pub l_pow_inner_onion : Option Onion
  pub l_pow_thread_progress : ℕ
  pub workers : List Worker
  pub made : ℕ
  pub freed : List ℕ
  pub files : List FileOp
  pub answers : List Event
  pub fault : Bool

abbrev pub tell : List Event → Rdv → Rdv
tell es r = record r { answers = r.answers ++ es }

abbrev pub touch : FileOp → Rdv → Rdv
touch op r = record r { files = r.files ++ op ∷ [] }

-- free_onion
abbrev pub free_onion : Onion → Rdv → Rdv
free_onion o r = record r { freed = o.id ∷ r.freed }

abbrev pub aprintf : World → Text → Option Text
aprintf w t = if w.aprintf_ok t then some t else none

-- The variables before the first request.
abbrev pub initial : Rdv
initial = record {
  l_password = [];
  l_current_onion = none;
  l_current_image_path = none;
  l_current_image_dir = [];
  l_captcha_image_path = none;
  l_pow_thread_started = false;
  l_pow_thread_finished = false;
  l_pow_thread_quit = false;
  l_pow_inner_onion = none;
  l_pow_thread_progress = 0;
  workers = [];
  made = 0;
  freed = [];
  files = [];
  answers = [];
  fault = false;
}
