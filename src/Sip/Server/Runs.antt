-- ===== src/Sip/Server/Runs.antt =====
-- Runs of the server.
use xk6_sip_media.Prelude.{◌≡◌, refl, true, some, List, [], ◌∷◌, arith}
use xk6_sip_media.Prelude.NatMap.{lookup, insert}
use xk6_sip_media.Prelude.Text.{
  Str, codes, split, has_prefix, trim_space, trim_right, trim_left, split_at, unix_lines,
  keep_before, fields, add_word, words, is_space, atoi, value, value_from, positive, negative,
}
use xk6_sip_media.Sip.Sdp.{
  parse_sdp, parse_lines, parse_line, connection_line, media_line, rtpmap_line, port_of,
  with_default, with_defaults,
}
use xk6_sip_media.Sip.Server.{
  ServerConfig, new_server, take_place, refusal, proceed, Event, arrives, proceeds, sleeps_out,
  advance, run,
}
use xk6_sip_media.Sip.Server.Cap.{Full, never_frees}

abbrev config : ServerConfig
config = record {
  local_ip = codes "192.0.2.9";
  codec = some 0;
  max_concurrent = 1;
  call_duration = 0;
}

abbrev offer : Str
offer = codes "c=IN IP4 192.0.2.1\nm=audio 5004 RTP/AVP 0"

abbrev first_call : List Event
first_call = arrives ∷ proceeds offer 20000 true true ∷ []

one_up : (run config (λ c. c) first_call new_server).waiting ≡ 1
unfolding run advance take_place proceed refusal parse_sdp parse_lines parse_line connection_line
    media_line rtpmap_line port_of with_defaults with_default lookup insert split has_prefix
    trim_space trim_right trim_left split_at unix_lines keep_before fields add_word words is_space
    atoi value value_from positive negative
one_up = refl

never_frees_example :
    let s = run config (λ c. c) first_call new_server in
    Full config (λ c. c) (arrives ∷ sleeps_out ∷ arrives ∷ []) s.responses s.results s
never_frees_example =
    never_frees config (λ c. c) first_call (arrives ∷ sleeps_out ∷ arrives ∷ []) refl (omega arith)
      one_up
