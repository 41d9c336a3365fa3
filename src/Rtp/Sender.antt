-- ===== src/Rtp/Sender.antt =====
-- core/rtp/sender.go: the audio sender, which the reactor calls every 20 ms. `marshal` is the
-- Marshal of pion's packets. A result of Tick carries the datagram that was sent, if any, the
-- number of calls of `onDone`, and whether the reactor is to keep the player.
pub mod Done
pub mod Stream
mod Runs
use xk6_sip_media.Prelude.{ℕ, suc, ◌+◌, Bool, true, false, Option, none, some, List, [], ◌∷◌, ◌++◌}
use xk6_sip_media.Prelude.{leb, if◌then◌else◌, length, get_or}
use xk6_sip_media.Rtp.Packet.{Packet}
use xk6_sip_media.Rtp.Session.{Session, next_seq_ts}

pub record SendStats : Type 0 where
  pub packets_sent : ℕ
  pub octets_sent : ℕ
  pub bytes_sent : ℕ

unfoldable pub count_sent : ℕ → ℕ → SendStats → SendStats
count_sent octets bytes s = record s {
  packets_sent = s.packets_sent + 1;
  octets_sent = s.octets_sent + octets;
  bytes_sent = s.bytes_sent + bytes;
}

-- `on_done` says that the callback is not nil.
pub record StreamPlayer : Type 0 where
  pub sess : Session
  pub payloads : List (List ℕ)
  pub pt : ℕ
  pub stats : SendStats
  pub idx : ℕ
  pub on_done : Bool
  pub ts_increment : ℕ

unfoldable pub new_stream : Session → List (List ℕ) → ℕ → ℕ → SendStats → Bool → StreamPlayer
new_stream sess payloads pt ts_increment stats on_done = record {
  sess = sess;
  payloads = payloads;
  pt = pt;
  stats = stats;
  idx = 0;
  on_done = on_done;
  ts_increment = ts_increment;
}

pub record TickResult : Type 0 where
  pub player : StreamPlayer
  pub sent : List (List ℕ)
  pub done_calls : ℕ
  pub kept : Bool

-- The end of the stream: the callback is called once and then forgotten.
unfoldable pub finish : StreamPlayer → TickResult
finish p = record {
  player = record p { on_done = false };
  sent = [];
  done_calls = if p.on_done then 1 else 0;
  kept = false;
}

-- The packet of one frame.
unfoldable pub audio_packet : ℕ → ℕ → ℕ → ℕ → List ℕ → Packet
audio_packet pt seq ts ssrc payload = record {
  marker = false;
  payload_type = pt;
  sequence_number = seq;
  timestamp = ts;
  ssrc = ssrc;
  payload = payload;
}

-- What becomes of the frame: a packet that cannot be marshalled is skipped, and one that the
-- socket refuses is not counted.
unfoldable pub emit : Option (List ℕ) → Bool → List ℕ → StreamPlayer → TickResult
emit none send_ok payload p = record { player = p; sent = []; done_calls = 0; kept = true }
emit (some raw) true payload p = record {
  player = record p { stats = count_sent (length payload) (length raw) p.stats };
  sent = raw ∷ [];
  done_calls = 0;
  kept = true;
}
emit (some raw) false payload p = record { player = p; sent = []; done_calls = 0; kept = true }

unfoldable pub tick : (Packet → Option (List ℕ)) → Bool → Bool → StreamPlayer → TickResult
tick marshal stop send_ok p =
    if stop
    then finish p
    else (if leb (length p.payloads) p.idx
        then finish p
        else (let payload = get_or p.payloads p.idx [] in
            let (seq, ts, sess') = next_seq_ts p.ts_increment p.sess in
            emit (marshal (audio_packet p.pt seq ts p.sess.ssrc payload)) send_ok payload
              (record p { sess = sess'; idx = p.idx + 1 })))

-- The reactor's calls: each pair says whether `stop` is closed and whether the socket takes the
-- datagram. A player that is not kept is not called again.
unfoldable pub run : (Packet → Option (List ℕ)) → List (Bool × Bool) → StreamPlayer → TickResult
run marshal [] p = record { player = p; sent = []; done_calls = 0; kept = true }
run marshal ((stop, send_ok) ∷ env) p =
    let t = tick marshal stop send_ok p in
    let rest = run marshal env t.player in
    if t.kept
    then record rest { sent = t.sent ++ rest.sent; done_calls = t.done_calls + rest.done_calls }
    else t
