-- ===== src/Lib.antt =====
-- xk6-sip-media: a k6 extension that places SIP calls and sends, receives and measures RTP media.
--
-- A call has a sender and a receiver. The sender is a stream player that a reactor ticks every
-- 20 ms: each tick takes one encoded payload, numbers it from the RTP session and sends it. The
-- receiver reads a datagram, updates the receive statistics, hands telephone events to the DTMF
-- collector and pushes audio into the jitter buffer, whose ticks write the packets in sequence
-- order into the recorder. With SRTP, a session on each side protects and opens the datagrams. The
-- payloads come from a codec.
--
-- The files, and the code they are about:
--   Codec/G722    core/codec/g722.go: encode, decode and the two bands' ADPCM. The int32
--                 arithmetic keeps its wrap-around.
--   Rtp/Packet    the fields of a pion/rtp packet that the code uses
--   Rtp/Session   core/rtp/session.go: NextSeqTS
--   Rtp/Stats     core/rtp/stats.go: RTPStats.update, lossPercent, Snapshot
--   Rtp/Recorder  core/rtp/recorder.go: Write, the goroutine fileWriter, one round at a time, Close;
--                 Overlap has the Writes of several goroutines in their two segments
--   Rtp/Jitter    core/rtp/jitter.go: Push, Tick (its playout and its flush), Close
--   Rtp/Sender    core/rtp/sender.go: Stream, StreamPlayer.Tick
--   Rtp/Dtmf      core/rtp/dtmf.go: SendDTMF and the packets it builds, decodeDTMFEvent,
--                 DTMFCollector; the branch of core/rtp/receiver.go that feeds the collector
--   Rtp/Srtp      core/rtp/srtp.go: ParseSRTPConfig, the sessions and their key derivation,
--                 estimateIndex, EncryptPacket, DecryptPacket
--   Rtp/Rtcp      core/rtp/rtcp.go: buildSR, buildRR, parseRTCP, parseSR, parseRR
--   Rtp/Receive   core/rtp/receiver.go, core/rtp/echo.go and ReceiveSRTP of core/rtp/srtp.go, one turn
--                 of each loop at a time. The packets that wait in the jitter buffer have their
--                 payloads in the loop's one buffer, so a read changes them (Alias)
--   Rtp/SrtpStream core/rtp/srtp.go: StreamSRTP, StreamSRTPPlayer.Tick
--   Rtp/Reactor   core/rtp/reactor.go: Add, the cycle of a shard, which prunes in place, and Len
--   Sip/Call      sip/handle.go, sip/hold.go, sip/transfer.go, sip/info.go: Hold, Unhold,
--                 BlindTransfer, SendInfo, Hangup and the finalizer, as whole methods and, in
--                 Interleave, as segments that any goroutines run in any order: a re-INVITE takes its
--                 session version in one and is sent in another
--   Sip/Uas       sip/registered_uas.go: handleInvite, cut into the segments between which the
--                 handlers of other INVITEs run, handleBye and Stop
--   Sip/Register  sip/register.go: Register, Refresh, Unregister; sendRegister and the interval of
--                 autoRefresh of sip/registered_uas.go
--   Sip/HealthCheck sip/healthcheck.go: the defaults, ping and its statistics
--   Sip/Dial      sip/dial.go: Dial, from its configuration to the handle; Chain has the order of the
--                 steps and what each failure closes
--   Sip/Loop      sip/call.go: loopPayloads; sip/vars.go: plcPayloadSize
--   Sip/Server    sip/server.go: handleInvite, in its segments
--   Sip/Sdp       sip/sdp.go and sip/sdp_srtp.go: building and parsing session descriptions
--   Audio/Pcap    core/audio/pcap_reader.go: LoadPCAP on the content of a capture file
--   Audio/Frames  core/audio/frame.go, pcm.go and codec_loader.go: SplitFrames, IntToInt16,
--                 rateAndFrameForCodec
--   K6/CsvPool    k6ext/csv_pool.go: the lines of the file to rows, Pick, PickRoundRobin
--   Prelude       tests on numbers, lists, integers, bytes, bit operations, maps, floats, text,
--                 taking an element out of a list
-- The definitions of a part stand in its file, the lemmas in its child modules, and the concrete
-- runs in the child module Runs.
--
-- How the state is kept: a struct is a record, a method a function from the state to the state and
-- what it returns. What a mutex guards is one step, so interleavings are lists of steps. A panic
-- (a write to a nil map, a send on a closed channel, a slice out of range) is `none`. Bytes and
-- unsigned integers are natural numbers and wrap by `%`. A Go map is an association list. A time
-- is a number of nanoseconds, passed in by the caller. Loops are recursions on their list, but the one
-- of parseRTCP and that of LoadPCAP, which have the length of their data as fuel: every turn takes at
-- least four bytes; that of loopPayloads, whose fuel is the number of payloads needed.
--
-- Parameters: float64 (Prelude/Floats: a type with its operations, no laws) and its
-- conversions (Rtp/Rtcp), the encoding of a packet by pion/rtp (Rtp/Sender, Rtp/Dtmf; where it is
-- opened again, Rtp/SrtpStream, it is assumed to succeed with the sequence number in its place) and
-- the decoding of one and the size of its header (Rtp/Receive), what the socket yields and whether it takes a datagram, what the
-- other end of a SIP dialog, the registrar and the system calls answer (Sip), the next random number,
-- and the AES, HMAC-SHA1 and base64 functions (Rtp/Srtp; of them only the lengths of a key stream and of a
-- digest are assumed), the case table beyond ASCII (Sip/Sdp), the sort by offset and the order of
-- map iteration (Audio/Pcap, Sip/Dial).
--
-- Not modelled: sockets, the goroutines' scheduling beyond the order of steps, the contents of SIP
-- messages and their transactions, AttendedTransfer, the conference,
-- the reactor's goroutines, the decoding of audio files, the codecs that call other
-- libraries, and the other bindings to k6. NewJitterBuffer's and Stream's registration with the
-- reactor is left to the caller of `tick`. The logging of errors is left out.
pub mod Audio
pub mod Codec
pub mod K6
pub mod Prelude
pub mod Rtp
pub mod Sip
