-- ===== src/Tests/Samples.antt =====
-- The data of the tests: containers with a few elements, and a parser whose owner keeps a log.
use librestserver.Libc.{Block}
use librestserver.Util.Num.{int_comparator, int_comparator-Compares, IsWord}
use librestserver.Util.Vector.{Vector}
use librestserver.Util.Vector.Shape.{Holds}
use librestserver.Util.Map.{Table}
use librestserver.Util.Map.Shape.{has}
use librestserver.Util.Map.Laws.{IsMap}
use librestserver.Util.Set.{Group}
use librestserver.Util.Set.Laws.{IsSetOf, member}
use librestserver.Parser.State.{Parser, Settings, body, finished, get}
use librestserver.Prelude.{ℕ, refl, none, some, List, [], ◌∷◌, ◌++◌, arith, ◌==◌, ok}

-- A vector of four numbers in a block of eight.
abbrev pub vector : Vector ℕ
vector = record {
  slots = some 5 ∷ some 70 ∷ some 6 ∷ some 80 ∷ none ∷ none ∷ none ∷ none ∷ [];
  size = 4;
  capacity = 8;
  destructor = none;
}

pub vector-Holds : Holds vector (5 ∷ 70 ∷ 6 ∷ 80 ∷ [])
vector-Holds = record {
  unused = none ∷ none ∷ none ∷ none ∷ [];
  layout = refl;
  counted = refl;
  block = refl;
  room = omega arith;
}

-- The map 5 ↦ 70, 6 ↦ 80, and the set of the same numbers.
abbrev pub table : Table ℕ
table = record {
  v = vector;
  comparator = int_comparator;
  key_destructor = none;
  value_destructor = none;
}

abbrev pub pairs : List (ℕ × ℕ)
pairs = (5, 70) ∷ (6, 80) ∷ []

pub table-IsMap : IsMap ◌==◌ IsWord table pairs
unfolding has
table-IsMap = record {
  represents = record {
    compares = int_comparator-Compares;
    holds = vector-Holds;
    keys = (omega arith, (omega arith, tt));
  };
  distinct = (refl, (refl, tt));
}

abbrev pub group : Group ℕ
group = record { v = vector; comparator = int_comparator; destructor = none }

pub group-IsSetOf : IsSetOf ◌==◌ IsWord group (5 ∷ 70 ∷ 6 ∷ 80 ∷ [])
unfolding member
group-IsSetOf = record {
  compares = int_comparator-Compares;
  holds = vector-Holds;
  held = (omega arith, (omega arith, (omega arith, (omega arith, tt))));
  distinct = (refl, (refl, (refl, (refl, tt))));
}

-- What the callbacks of the log were called with.
pub data Event : Type 0 where
  began completed headers_completed : Event
  url field value body_part : Block → Event

abbrev pub Log : Type 0
Log = List Event

abbrev pub logging : Settings Log
logging = record {
  on_message_begin = λ p log. ok (log ++ (began ∷ []));
  on_url = λ at log. ok (log ++ (url at ∷ []));
  on_header_field = λ at log. ok (log ++ (field at ∷ []));
  on_header_value = λ at log. ok (log ++ (value at ∷ []));
  on_headers_complete = λ p log. ok (log ++ (headers_completed ∷ []));
  on_body = λ at log. ok (log ++ (body_part at ∷ []));
  on_message_complete = λ p log. ok (log ++ (completed ∷ []));
}

-- A parser behind the two bytes that end the header, with two bytes of a body of `need`.
abbrev pub in_body : ℕ → Parser
in_body need = record {
  state = body;
  last_pos = 2;
  buf = record { buf = 13 ∷ 10 ∷ b'h' ∷ b'i' ∷ 0 ∷ []; len = 4 };
  error = 0;
  method = get;
  http_major = 1;
  http_minor = 1;
  content_length = need;
  body_read = 0;
}

abbrev pub after_message : Parser
after_message = record (in_body 2) { state = finished; body_read = 2; last_pos = 4 }
