-- ===== src/Http/Query.antt =====
-- RST_request_parse_query_string of librestserver/rstclient.c.
pub mod Laws
pub mod Pairs
use librestserver.Libc.{Block, offset, read_byte, literal}
use librestserver.Util.Num.{CString}
use librestserver.Util.Map.{Table}
use librestserver.Util.Map
use librestserver.Util.StringBuilder.{alloc_string_n, alloc_string}
use librestserver.Prelude.{
  ℕ, zero, suc, ◌+◌, Bool, true, false, none, some, ◌==◌, if◌then◌else◌, Result, ok, ◌>>=◌, ◌>>◌,
}

-- The variables of the loop, and the map of parameters. `value` is null between the rounds.
pub record Scan : Type 0 where
  pub current_is_value : Bool
  pub started_from : ℕ
  pub cur_len : ℕ
  pub key : CString
  pub params : Table CString

-- RST_alloc_string_n(qstr + started_from, cur_len)
unfoldable pub piece : Block → Scan → Result CString
unfolding offset alloc_string_n
piece q s = do src ← offset q s.started_from; t ← alloc_string_n src s.cur_len; ok (some t)

-- current_is_value ? RST_alloc_string_n(qstr + started_from, cur_len) : RST_alloc_string("")
unfoldable pub value_of : Block → Scan → Result CString
unfolding piece alloc_string
value_of q s =
    if s.current_is_value then piece q s else (alloc_string (literal "") >>= λ t. ok (some t))

unfoldable pub save_pair : Block → Scan → Result (Table CString)
unfolding value_of Map.insert
save_pair q s = do value ← value_of q s; Map.insert s.params s.key value

-- What a round ends with: the next round, or the return of 0.
pub data Round : Type 0 where
  again : Scan → Round
  returned : Scan → Round

-- The case of '='. The key is freed before the return of 0.
unfoldable pub on_equals : Block → Scan → ℕ → Result Round
unfolding piece
on_equals q s i =
    if s.current_is_value
    then ok (returned s)
    else (piece q s >>= λ key. ok (
        again (record s { current_is_value = true; key = key; started_from = i + 1; cur_len = 0 })))

-- The variables after a pair was saved at the '&' of index `i`.
abbrev pub next_pair : Scan → Table CString → ℕ → Scan
next_pair s params i = record s {
  current_is_value = false;
  key = none;
  started_from = i + 1;
  cur_len = 0;
  params = params;
}

-- The default case.
abbrev pub count_byte : Scan → Scan
count_byte s = record s { cur_len = s.cur_len + 1 }

-- The case of '&' falls through to the default case.
unfoldable pub on_ampersand : Block → Scan → ℕ → Result Round
unfolding save_pair
on_ampersand q s i = do params ← save_pair q s; ok (again (count_byte (next_pair s params i)))

unfoldable pub on_byte : Block → Scan → ℕ → Result Round
unfolding read_byte on_equals on_ampersand
on_byte q s i = do
  c ← read_byte q i
  if c == b'='
      then on_equals q s i
      else if c == b'&'
      then on_ampersand q s i
      else ok (again (count_byte s))

-- The statements behind the loop.
unfoldable pub finish : Block → Scan → Result (Table CString × Bool)
unfolding save_pair
finish q s = do params ← save_pair q s; ok (params, true)

-- for (i = 0; i < len; i++), with the rounds left, and what follows it.
unfoldable pub scan_from : ℕ → Block → Scan → ℕ → Result (Table CString × Bool)
unfolding on_byte finish
scan_from zero q s i = finish q s
scan_from (suc n) q s i =
    on_byte q s i
    >>= (λ r. elim r [ returned t ↦ ok (t.params, false) | again t ↦ scan_from n q t (i + 1) ])

abbrev pub first_scan : Table CString → Scan
first_scan params = record {
  current_is_value = false;
  started_from = 0;
  cur_len = 0;
  key = none;
  params = params;
}

-- The parameters as they are left, and the returned flag.
unfoldable pub parse_query_string : Table CString → Block → ℕ → Result (Table CString × Bool)
unfolding scan_from
parse_query_string params q len = scan_from len q (first_scan params) 0
