-- ===== src/Tests/Split.antt =====
-- A client that sends two packets, at small inputs.
use librestserver.Libc.{read_byte, print_int}
use librestserver.Util.Num.{CString, int_comparator}
use librestserver.Util.Keys.{IsKey, same_string}
use librestserver.Util.Map.{Table}
use librestserver.Util.Map
use librestserver.Util.Map.Laws.{IsMap}
use librestserver.Http.Request.{string_map}
use librestserver.Parser.State.{Parser, post, finished}
use librestserver.Client.State as ClientState
use librestserver.Client.Collect.Message.{collected}
use librestserver.Client.Answer.Targets.{plain}
use librestserver.Client.Answer.Complete.{asking, answering}
use librestserver.Service.{connection_at, on_data_received}
use librestserver.Service.Requests.{leaving}
use librestserver.Service.Split.{on_data_received-split}
use librestserver.Tests.Client.{fresh}
use librestserver.Tests.Exchange
use librestserver.Tests.Exchange.{
  service-Knows, service_site, service-AnswersAll, text, service, ten, packet-IsRequest,
  packet-IsAsked,
}
use librestserver.Tests.Messages.{two_bytes, cut_part, left_part, packet, packet_behind}
use librestserver.Util.Map.Shape.{lookup, has}
use librestserver.Service.Second.{on_data_received-second}
use librestserver.Tests.Server.{server-Tracks, server}
use librestserver.Prelude.{◌≡◌, refl, true, [], ◌∷◌, arith, no_progress, err, ◌>>=◌}

on_data_received-split_example :
    (p : Parser) × (headers : Table CString) × ((on_data_received ten 2 server service 7 packet
        >>= λ r. on_data_received ten 4 r.0 r.1 7 packet_behind)
      ≡ (answering service.site ten true (record {
        client =
            asking fresh.0 post (b'/' ∷ []) (b'/' ∷ []) 1 1 headers string_map (b'h' ∷ b'i' ∷ []);
        server = server;
      })
          >>= leaving service 0 p))
    × IsMap same_string IsKey headers (collected (two_bytes ∷ []) [])
    × (p.state ≡ finished)
on_data_received-split_example =
    on_data_received-split ten service 7 0 (unfold Map.find in (unfold int_comparator in refl)) 0 0
      server fresh post b'/' [] (b'/' ∷ []) b'1' b'1' [] [] two_bytes cut_part left_part string_map
      true (b'h' ∷ b'i' ∷ []) (unfold connection_at in refl) (unfold ClientState.init in refl)
      packet-IsRequest refl
      (record { first = b'n'; read = unfold read_byte in refl; passed = refl })

on_data_received-second_example :
    (on_data_received ten 5 server service 7 Exchange.packet >>= λ r.
    on_data_received ten 30 r.0 r.1 7 (b'G' ∷ []))
    ≡ err no_progress
unfolding print_int
on_data_received-second_example =
    on_data_received-second ten 0 30 server 7 0 fresh post b'/' [] (plain (b'/' ∷ [])) b'1' b'1'
      (two_bytes ∷ []) (b'h' ∷ b'i' ∷ []) text 10 b'G' [] service-Knows (omega arith)
      (unfold lookup in refl) (unfold connection_at in refl) (unfold ClientState.init in refl)
      packet-IsAsked service_site service-AnswersAll server-Tracks (unfold has in refl) refl
      (omega arith) refl
