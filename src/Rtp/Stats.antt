-- ===== src/Rtp/Stats.antt =====
-- core/rtp/stats.go: the counters of the receiving side. A time is a number of nanoseconds of the
-- monotonic clock and the zero time is `none`. The `int` counters count packets, and are unbounded.
pub mod Track
pub mod Late
mod Runs
use Prim.Native.Nat.{bit_or}
use xk6_sip_media.Prelude.{ℕ, ◌+◌, ◌-◌, ◌*◌, ◌^◌, Bool, true, false, not, Option, none, some}
use xk6_sip_media.Prelude.{ltb, ◌==◌, if◌then◌else◌}
use xk6_sip_media.Prelude.Int.{ℤ, pos, negsuc, pos_part, sub_ℕ, ltb_ℤ, ◌+ℤ◌, ◌-ℤ◌, quot}
use xk6_sip_media.Prelude.Bytes.{u16, u32}
use xk6_sip_media.Prelude.Floats.{Floats}

-- How many packets `diff` says were lost, after the guard against wraparound.
unfoldable pub lost_in_gap : ℕ → ℕ → ℕ
unfolding ◌+ℤ◌ ◌-ℤ◌
lost_in_gap seq last_seq =
    let diff = sub_ℕ seq last_seq in
    let forward = if ltb_ℤ diff (pos 0) then diff +ℤ pos 65536 else diff in
    if ltb_ℤ (pos 1) forward then pos_part (forward -ℤ pos 1) else 0

-- The rollover count and the extended sequence number after a packet.
unfoldable pub next_rollover : ℕ → ℕ → ℕ → ℕ
next_rollover seq last_seq rollover =
    if ltb_ℤ (sub_ℕ seq last_seq) (negsuc 0x7fff) then u16 (rollover + 1) else rollover

unfoldable pub extend : ℕ → ℕ → ℕ
extend rollover seq = bit_or (u32 (rollover * 2 ^ 16)) seq

module _ (fl : Floats) where
  open fl use {F, decimal, of_int, add_f, sub_f, mul_f, div_f, lt_f}

  pub record RtpStats : Type 0 where
    pub packets_received : ℕ
    pub packets_lost : ℕ
    pub jitter : F
    pub bytes_received : ℕ
    pub last_seq : ℕ
    pub last_arrival : Option ℕ
    pub initialized : Bool
    pub rollover : ℕ
    pub highest_seq_extended : ℕ
    pub recv_errors : ℕ

  pub record RtpStatsSnapshot : Type 0 where
    pub packets_received : ℕ
    pub packets_lost : ℕ
    pub jitter : F
    pub highest_seq_extended : ℕ
    pub packet_loss_pct : F
    pub recv_errors : ℕ
    pub bytes_received : ℕ

  unfoldable pub fresh_stats : RtpStats
  fresh_stats = record {
    packets_received = 0;
    packets_lost = 0;
    jitter = decimal 0 0;
    bytes_received = 0;
    last_seq = 0;
    last_arrival = none;
    initialized = false;
    rollover = 0;
    highest_seq_extended = 0;
    recv_errors = 0;
  }

  unfoldable pub loss_percent : RtpStats → F
  loss_percent s =
      let total = s.packets_received + s.packets_lost in
      if total == 0
      then decimal 0 0
      else div_f (mul_f (of_int (pos s.packets_lost)) (decimal 100 0)) (of_int (pos total))

  unfoldable pub snapshot : RtpStats → RtpStatsSnapshot
  snapshot s = record {
    packets_received = s.packets_received;
    packets_lost = s.packets_lost;
    jitter = s.jitter;
    highest_seq_extended = s.highest_seq_extended;
    packet_loss_pct = loss_percent s;
    recv_errors = s.recv_errors;
    bytes_received = s.bytes_received;
  }

  -- The moving average of the deviation from the expected 20 ms.
  unfoldable pub next_jitter : F → Option ℕ → ℕ → F
  next_jitter jitter none arrival = jitter
  next_jitter jitter (some last_arrival) arrival =
      let interval_ms = of_int (quot (sub_ℕ arrival last_arrival) 1_000_000) in
      let signed = sub_f interval_ms (decimal 20 0) in
      let deviation = if lt_f signed (decimal 0 0) then sub_f (decimal 0 0) signed else signed in
      add_f (mul_f jitter (decimal 9 1)) (mul_f deviation (decimal 1 1))

  unfoldable pub update : RtpStats → ℕ → ℕ → RtpStats
  update s seq arrival =
      if not s.initialized
      then record s {
        last_seq = seq;
        last_arrival = some arrival;
        initialized = true;
        packets_received = s.packets_received + 1;
        highest_seq_extended = u32 seq;
      }
      else (let rollover' = next_rollover seq s.last_seq s.rollover in
          let extended = extend rollover' seq in
          record s {
            packets_received = s.packets_received + 1;
            packets_lost = s.packets_lost + lost_in_gap seq s.last_seq;
            jitter = next_jitter s.jitter s.last_arrival arrival;
            last_seq = seq;
            last_arrival = some arrival;
            rollover = rollover';
            highest_seq_extended =
                if ltb s.highest_seq_extended extended then extended else s.highest_seq_extended;
          })
