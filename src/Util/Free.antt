-- ===== src/Util/Free.antt =====
-- RST_FREE of librestserver/rstutil.c on strings. RST_garbagepool_assert_ptr_allocated looks for the
-- pointer among the allocations, where neither null nor an address inside a block is found. A string
-- of a map or of a response is an allocation of its own, so it is found.
use librestserver.Util.Num.{CString}
use librestserver.Util.Vector.{Call, element, slot}
use librestserver.Prelude.{none, some, List, [], ◌∷◌, assertion, Result, ok, err, ◌>>◌}

unfoldable pub free_string : CString → Result (Unit {0})
free_string none = err assertion
free_string (some s) = ok tt

-- The calls of RST_cstr_dtor, the only destructor that maps of strings have.
unfoldable pub run_calls : List (Call CString) → Result (Unit {0})
unfolding free_string
run_calls [] = ok tt
run_calls ((d, element x) ∷ calls) = free_string x >> run_calls calls
run_calls ((d, slot i) ∷ calls) = err assertion
