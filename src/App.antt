-- ===== src/App.antt =====
-- The program around the library: testapp/main.c, librestserver/zoshttpcommon.c and
-- librestserver/wsconninterface.c. The file system is an argument, from paths to contents.
pub mod Files
use librestserver.Libc.{Block, literal, codes, text_of}
use librestserver.Util.Num.{CString}
use librestserver.Util.Map
use librestserver.Util.StringBuilder.{alloc_string, init_with_n}
use librestserver.Util.Replace.{str_replace}
use librestserver.Parser.State.{get, post}
use librestserver.Http.Request.{Request, get_query_param}
use librestserver.Http.Response.{
  Response, code_of, okay, set_body, set_body_n, set_status_message, set_header, set_not_found,
}
use librestserver.Http.Resource.{Resource, Handler}
use librestserver.Http.Resource
use librestserver.Client.State.{Site, Session}
use librestserver.Client.Answer.{send_sb}
use librestserver.Service.{Service, publish, publish_generic_handler}
use librestserver.Service
use librestserver.Server.State.{Idle}
use librestserver.Prelude.{
  ℕ, ◌+◌, Option, none, some, [], ◌∷◌, ◌++◌, ltb, leb, if◌then◌else◌, length, take, out_of_bounds,
  null_pointer, Result, ok, err, ◌>>=◌, from_option,
}

-- strcat(buf, s) and strncat(buf, s, n) on the texts, where `buf` has room for `size` bytes.
unfoldable pub strcat_n : ℕ → Block → Block → Result Block
strcat_n size buf s = if ltb (length (buf ++ s)) size then ok (buf ++ s) else err out_of_bounds

-- The body `mes`, status 200 and an empty status message.
unfoldable pub answer_text : Response → Block → Result Response
unfolding set_body set_status_message
answer_text r mes = do
  s ← set_body r (mes ++ (0 ∷ []))
  set_status_message (record s { status_code = code_of okay }) (some (literal ""))

-- The greeting of a name, of which at most 100 bytes are taken, into `char mes[size]`.
unfoldable pub greet : ℕ → Block → Result Block
unfolding strcat_n text_of
greet size name = do
  text ← text_of name
  hello ← strcat_n size [] (codes "<h1>Hello, ")
  strcat_n size hello (take 100 text)

unfoldable pub get_method_handler : Handler
unfolding get_query_param greet strcat_n answer_text
get_method_handler q r = do
  name ← get_query_param q (some (literal "name"))
  mes ← elim name [
    | some n ↦ greet 200 n
    | none ↦ strcat_n 200 [] (codes "<h1>It Works!</h1><p>Please, your name?</p>")
  ]
  answer_text r mes

unfoldable pub get_sleep : Handler
unfolding set_body set_header set_status_message
get_sleep q r = do
  s ← set_body r (literal "<h1>It Works!</h1><p></p>")
  t ←
      set_header (record s { status_code = code_of okay })
        (some (literal "Access-Control-Allow-Origin")) (some (literal "*"))
  set_status_message t (some (literal ""))

abbrev pub max_file_path : ℕ
max_file_path = 512

-- What a handler reads of the world: the document root, and the files that can be opened.
module _ (document_root : Block) (files : Block → Option Block) where
  -- The response of a file that exists.
  unfoldable pub answer_file : Response → Block → Result Response
  unfolding set_body_n set_status_message
  answer_file r contents = do
    s ← set_body_n r contents (length contents)
    set_status_message (record s { http_major = 1; http_minor = 1; status_code = code_of okay })
        (some (literal "OK"))

  -- strcpy, strcat and str_replace: the path that is opened.
  unfoldable pub clear_path : Request → Result Block
  unfolding text_of str_replace
  clear_path q = do
    url ← text_of q.url.buf
    clear ←
        str_replace (some ((document_root ++ url) ++ (0 ∷ []))) (some (literal ".."))
          (some (literal ""))
    block ← from_option clear null_pointer
    text_of block

  unfoldable pub generic_handler : Handler
  unfolding clear_path answer_file set_not_found
  generic_handler q r =
      if leb (length document_root + q.url.len) max_file_path
      then (clear_path q >>= λ path. elim (files path) [
        | some contents ↦ answer_file r contents
        | none ↦ set_not_found r q none
      ])
      else set_not_found r q none

  -- The path of a picture is cut by nothing: its buffer has 255 bytes, and a missing parameter or
  -- file is a null pointer.
  unfoldable pub get_picture : Handler
  unfolding get_query_param text_of strcat_n alloc_string Map.insert set_body_n set_status_message
  get_picture q r = do
    param ← get_query_param q (some (literal "name"))
    block ← from_option param null_pointer
    name ← text_of block
    path ← strcat_n 255 (codes "C:\\Users\\user\\Downloads\\") name
    contents ← from_option (files path) null_pointer
    k ← alloc_string (literal "Content-Type")
    v ← alloc_string (literal "image/png")
    headers ← Map.insert r.headers (some k) (some v)
    s ← set_body_n (record r { headers = headers }) contents (length contents)
    set_status_message (record s { status_code = code_of okay }) (some (literal "OK"))

  -- The resources that main publishes, on a service for `port`; `post_method_handler` is an argument.
  unfoldable pub setup : ℕ → Handler → Result (Service × Idle)
  unfolding Service.init publish_generic_handler publish Resource.init
  setup port post_method_handler = do
    let started = Service.init port
    let s = publish_generic_handler started.0 generic_handler
    t ← publish s (Resource.init (literal "/testget") get get_method_handler)
    u ← publish t (Resource.init (literal "/testsleep") get get_sleep)
    v ← publish u (Resource.init (literal "/testpic") get get_picture)
    w ← publish v (Resource.init (literal "/testpost") post post_method_handler)
    ok (w, started.1)

-- get_zos_dslist: without a name the command is built and not used, and the message is empty.
unfoldable pub get_zos_dslist : Handler
unfolding get_query_param greet answer_text
get_zos_dslist q r = do
  dsquery ← get_query_param q (some (literal "dsquery"))
  name ← get_query_param q (some (literal "name"))
  mes ← elim name [ some n ↦ greet 512 n | none ↦ ok [] ]
  answer_text r mes

-- get_zos_file and post_zos_submit have empty bodies.
unfoldable pub get_zos_file : Handler
get_zos_file q r = ok r

unfoldable pub post_zos_submit : Handler
post_zos_submit q r = ok r

-- Of the three resources only the first is published.
unfoldable pub set_zos_http_common_resources : Service → Result Service
unfolding publish Resource.init
set_zos_http_common_resources s = publish s (Resource.init (literal "/dslist") get get_zos_dslist)

-- RST_websocketconnectioninterface_send does nothing; the other form sends the bytes as they are.
unfoldable pub websocket_send : Session → CString → Result Session
websocket_send s str = ok s

unfoldable pub websocket_send_n : Site → (ℕ → Option ℕ) → Session → Block → ℕ → Result Session
unfolding init_with_n send_sb
websocket_send_n site taken s buf len = do sb ← init_with_n buf len; send_sb site taken s sb
