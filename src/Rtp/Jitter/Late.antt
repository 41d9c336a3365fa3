-- ===== src/Rtp/Jitter/Late.antt =====
-- Which packets `push` drops.
use xk6_sip_media.Prelude.{ℕ, ◌+◌, ◌-◌, ◌<◌, ◌≤◌, ◌≡◌, true, some, List, arith}
use xk6_sip_media.Prelude.{ltb, if◌then◌else◌}
use xk6_sip_media.Prelude.NatMap
use xk6_sip_media.Rtp.Packet.{Packet}
use xk6_sip_media.Rtp.Jitter.{JitterBuffer, is_late, push}

pub is_late-eq_ltb : (seq next_seq : ℕ) → is_late seq next_seq ≡ ltb seq next_seq
unfolding is_late
is_late-eq_ltb seq next_seq = ground arith

-- A started buffer drops a packet exactly if its sequence number is below the playout head as a
-- plain number, and then stays as it was; any other packet is stored under its sequence number.
-- The two bounds in the test on `delta` make no difference.
pub push_started :
    (now : ℕ) (pkt : Packet) (jb : JitterBuffer) (m : List (ℕ × Packet))
    → jb.started ≡ true
    → jb.packets ≡ some m
    → push now pkt jb ≡ (
        if ltb pkt.sequence_number jb.next_seq
        then some jb
        else some (record jb { packets = some (NatMap.insert pkt.sequence_number pkt m) }))
unfolding push
push_started now pkt jb m s e = ground (arith, is_late-eq_ltb pkt.sequence_number jb.next_seq)

-- So a packet that is ahead of the playout head across the wrap of the sequence number, by any
-- number of places up to half the range, is dropped as if it were late.
pub push_ahead_wrapped :
    (now : ℕ) (pkt : Packet) (jb : JitterBuffer) (m : List (ℕ × Packet)) (ahead : ℕ)
    → jb.started ≡ true
    → jb.packets ≡ some m
    → jb.next_seq < 65536
    → ahead ≤ 32768
    → 65536 ≤ jb.next_seq + ahead
    → pkt.sequence_number ≡ jb.next_seq + ahead - 65536
    → push now pkt jb ≡ some jb
push_ahead_wrapped now pkt jb m ahead s e n a w q = ground (arith, push_started now pkt jb m s e)
