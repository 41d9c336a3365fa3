-- ===== src/Rtp/Packet.antt =====
-- The RTP packet that core/rtp hands to and takes from github.com/pion/rtp: the header fields that
-- the program sets or reads, and the payload. Marshal and Unmarshal are that library's, and are
-- parameters of what uses them.
use Prim.Native.Nat.{ℕ}
use mathlib.Core.Bool.{Bool}
use mathlib.Core.List.{List}

pub record Packet : Type 0 where
  pub marker : Bool
  pub payload_type : ℕ
  pub sequence_number : ℕ
  pub timestamp : ℕ
  pub ssrc : ℕ
  pub payload : List ℕ
