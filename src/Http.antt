-- ===== src/Http.antt =====
-- What djb sees of an HTTP client (libfutil's httpsrv_client_t, with the djb_headers_t of
-- server/djb.h as its user data), and its calls of libfutil, recorded as events.
use jumpbox.Base.{ℕ, Bool, Option, Text, ◌==◌, if◌then◌else◌}

-- The callbacks that are stored in djb_headers_t.push (server/acs.c).
pub data Callback : Type 0 where
  initial_answer redirect_answer : Callback

-- djb_headers_t
pub record Headers : Type 0 where
  pub push : Option Callback
  pub httpcode : Text
  pub httptext : Text
  pub seqno : Text
  pub setcookie : Text
  pub cookie : Text

pub data Method : Type 0 where
  m_none m_get m_post m_other : Method

-- `valid` is what conn_is_valid says, `handling` whether the connection is on the handling list.
pub record Client : Type 0 where
  pub id : ℕ
  pub reqid : ℕ
  pub method : Method
  pub hostname : Text
  pub uri : Text
  pub rawuri : Text
  pub content_type : Text
  pub content_length : ℕ
  pub the_headers : Text
  pub readbody : Option Text
  pub user : Option Headers
  pub valid : Bool
  pub handling : Bool
  pub keephandling : Bool

pub data CType : Type 0 where
  no_ctype html json css : CType

-- djb_status_t
pub data Status : Type 0 where
  djb_err djb_ok djb_done : Status

-- How long an answer may be cached.
pub data Expire : Type 0 where
  force short long : Expire

-- The headers that djb writes.
pub data Field : Type 0 where
  djb_uri djb_method djb_seqno djb_cookie content_type_field set_cookie_field : Field

-- A client is named by a number, its address.
pub data Event : Type 0 where
  answer_ok : ℕ → CType → Event  -- httpsrv_answer(hcl, HTTPSRV_HTTP_OK, ctype)
  answer : ℕ → ℕ → Text → Event  -- httpsrv_answer(hcl, code, text, NULL)
  error : ℕ → ℕ → Text → Event  -- httpsrv_error(hcl, code, msg)
  header : ℕ → Field → Text → Event  -- conn_addheaderf(hcl, "name: value")
  headers : ℕ → Text → Event  -- conn_addheaders(hcl, text)
  expire : ℕ → Expire → Event  -- httpsrv_expire
  put : ℕ → Text → Event  -- conn_put, conn_printf
  done : ℕ → Event  -- httpsrv_done(hcl)
  sendfile : ℕ → Text → Event  -- httpsrv_sendfile(hcl, path)
  forward : ℕ → ℕ → Event  -- httpsrv_forward(from, to)
  handling_setup : ℕ → Event  -- connset_handling_setup
  handling_done : ℕ → Event  -- connset_handling_done
  free : ℕ → Event  -- free(pr), of the queue entry of this client
  close : ℕ → Event  -- httpsrv_close
  destroy : ℕ → Event  -- httpsrv_client_destroy
  abort : Event  -- a failed assert, or a read through NULL

-- A write through a pointer to a client.
unfoldable pub update : (ℕ → Client) → ℕ → Client → ℕ → Client
update f a c b = if b == a then c else f b

abbrev pub is_post : Method → Bool
is_post m_post = Bool.true
is_post _ = Bool.false

abbrev pub is_none_method : Method → Bool
is_none_method m_none = Bool.true
is_none_method _ = Bool.false
