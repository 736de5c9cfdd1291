-- ===== src/Tests/Outputs.antt =====
-- lib/edioutput/Transport.cpp and src/Outputs.cpp with small frames.
use odr_source_companion.Base.{
  All, joined, ℕ, true, false, List, [], ◌∷◌, ◌++◌, replicate, none, some, ◌≡◌, refl, arith,
}
use odr_source_companion.Edi.Result.{ok}
use odr_source_companion.Edi.Pft
use odr_source_companion.Edi.Pft.{
  Pft, protect_and_fragment, fec_fields, ceil_div, cut, copy_run, add_headers,
}
use odr_source_companion.Edi.Transport.{
  tcp_client, udp_destination, default_configuration, Sender, sender, send_fragments,
  inter_fragment_wait_time, write_packet,
}
use odr_source_companion.Edi.Transport.Pending.{fragments_of}
use odr_source_companion.Edi.Transport.Rounds.{run_rounds, write_packet-Delivered}
use odr_source_companion.Outputs
use odr_source_companion.Outputs.{
  AudioLevels, ZmqOutput, dabplus, message_taken, would_block, send_throws,
}
use odr_source_companion.Outputs.Zmq.{read_frame, write_frame-read}
use odr_source_companion.Outputs.Edi
use odr_source_companion.Outputs.Edi.{EdiOutput, edi_output, add_tcp_destination, sender_of}
use odr_source_companion.Companion.{Clocks, write_superframe}
use odr_source_companion.Companion.Blocks.{
  IsPlain, Carries, HasSize, fifths, write_superframe-Carries,
}
use odr_source_companion.Outputs.Edi.Delivery.{Delivered, write_frame-Delivered}

abbrev no_parity : List ℕ → List ℕ
no_parity bytes = replicate 48 0

abbrev zmq : ZmqOutput
zmq = record {
  levels = record { m_audio_left = 500; m_audio_right = 65000 };
  m_bitrate = 0;
  m_encoder = dabplus;
  m_framebuf = [];
  sent = [];
}

write_frame-read_example :
    (message : List ℕ) × ((Outputs.write_frame zmq message_taken (1 ∷ 2 ∷ 3 ∷ []) 2).0 ≡ true)
    × ((Outputs.write_frame zmq message_taken (1 ∷ 2 ∷ 3 ∷ []) 2).1.sent ≡ [] ++ message ∷ [])
    × (read_frame message
        ≡ some (record {
          encoder = 1;
          audiolevel_left = 500;
          audiolevel_right = 65000;
          data' = 1 ∷ 2 ∷ [];
        }))
    × ((Outputs.write_frame zmq would_block (1 ∷ 2 ∷ 3 ∷ []) 2).0 ≡ true)
    × ((Outputs.write_frame zmq would_block (1 ∷ 2 ∷ 3 ∷ []) 2).1.sent ≡ [])
    × ((Outputs.write_frame zmq send_throws (1 ∷ 2 ∷ 3 ∷ []) 2).0 ≡ false)
    × ((Outputs.write_frame zmq send_throws (1 ∷ 2 ∷ 3 ∷ []) 2).1.sent ≡ [])
write_frame-read_example =
    write_frame-read zmq (1 ∷ 2 ∷ 3 ∷ []) 2 (omega arith) (omega arith) (omega arith) (omega arith)

abbrev tcp_output : EdiOutput
tcp_output = add_tcp_destination (edi_output 0) (b'h' ∷ []) 9001

abbrev tcp_sender : Sender
tcp_sender = record {
  m_udp_fragmentation_warning_printed = false;
  m_conf = record default_configuration {
    destinations =
        tcp_client (record { dest_addr = b'h' ∷ []; dest_port = 9001; max_frames_queued = 1024 })
        ∷ [];
  };
  edi_debug_file = [];
  edi_af_packetiser = record { m_seq = 0 };
  edi_pft = record { m_k = 207; m_m = 0; m_pseq = 0; m_num_chunks = 0 };
  m_running = false;
  m_pending_frames = [];
  m_last_num_pft_fragments = 0;
  sent = [];
}

tcp_sender-made : sender_of tcp_output ≡ ok tcp_sender
unfolding add_tcp_destination edi_output sender Pft.new
tcp_sender-made = refl

write_frame-Delivered_example :
    (after : EdiOutput) × (Edi.write_frame no_parity tcp_output 37 0 5 (7 ∷ 8 ∷ []) 2 ≡ ok after)
    × Delivered tcp_output tcp_sender 37 0 (7 ∷ 8 ∷ []) after
unfolding add_tcp_destination edi_output
write_frame-Delivered_example =
    write_frame-Delivered no_parity tcp_output tcp_sender 37 0 5 (7 ∷ 8 ∷ []) 2 tcp_sender-made refl
      refl (omega arith) (omega arith) (omega arith) (omega arith) tt

-- Two bytes make one fragment.
abbrev udp_sender : Sender
udp_sender = record tcp_sender {
  m_conf = record default_configuration {
    enable_pft = true;
    destinations =
        udp_destination (record {
          dest_addr = b'h' ∷ [];
          dest_port = 9001;
          source_addr = [];
          source_port = 0;
          ttl = 10;
        })
        ∷ [];
  };
  m_running = true;
  m_pending_frames = (3, 1 ∷ []) ∷ (4, 2 ∷ []) ∷ [];
}

abbrev fragments : List (List ℕ)
fragments = add_headers 0 1 none 0 ((5 ∷ 6 ∷ []) ∷ [])

assembled_fragments :
    Pft.assemble no_parity udp_sender.edi_pft (5 ∷ 6 ∷ [])
    ≡ ok (fragments, record udp_sender.edi_pft { m_pseq = 1 })
unfolding Pft.assemble protect_and_fragment fec_fields ceil_div cut copy_run
assembled_fragments = refl

write_packet-Delivered_example :
    (self' : Sender) × (write_packet no_parity udp_sender 10 (5 ∷ 6 ∷ []) ≡ ok self')
    × ((run_rounds self' ((3 ∷ 2 ∷ []) ++ 2000 ∷ [])).sent
        ≡ []
          ++ send_fragments udp_sender.m_conf.destinations
              (fragments_of udp_sender.m_pending_frames ++ fragments))
    × ((run_rounds self' ((3 ∷ 2 ∷ []) ++ 2000 ∷ [])).m_pending_frames ≡ [])
unfolding inter_fragment_wait_time add_headers
write_packet-Delivered_example =
    write_packet-Delivered no_parity udp_sender 10 (5 ∷ 6 ∷ []) fragments
      (record udp_sender.edi_pft { m_pseq = 1 }) (3 ∷ 2 ∷ []) 2000 refl refl
      ((omega arith, tt), (tt, tt)) (omega arith, (omega arith, tt)) assembled_fragments
      (omega arith) (omega arith)

abbrev no_clocks : ℕ → Clocks
no_clocks i = record { tai_utc_offset = 37; now = 0; write_time = i }

tcp_output-IsPlain : IsPlain tcp_output tcp_sender
unfolding add_tcp_destination edi_output
tcp_output-IsPlain = record {
  made = tcp_sender-made;
  no_pft = refl;
  unaligned = refl;
  sequence = omega arith;
  short_version = omega arith;
  version_bytes = tt;
}

write_superframe-Carries_example :
    (after : EdiOutput) × (s' : Sender) × (write_superframe no_parity no_clocks tcp_output
        (1 ∷ 2 ∷ 3 ∷ 4 ∷ 5 ∷ [])
        5
      ≡ ok after)
    × IsPlain after s'
    × Carries tcp_sender (fifths (1 ∷ 2 ∷ 3 ∷ 4 ∷ 5 ∷ [])) s'
    × All (HasSize 1) (fifths (1 ∷ 2 ∷ 3 ∷ 4 ∷ 5 ∷ []))
    × (joined (fifths (1 ∷ 2 ∷ 3 ∷ 4 ∷ 5 ∷ [])) ≡ 1 ∷ 2 ∷ 3 ∷ 4 ∷ 5 ∷ [])
write_superframe-Carries_example =
    write_superframe-Carries no_parity no_clocks tcp_output tcp_sender (1 ∷ 2 ∷ 3 ∷ 4 ∷ 5 ∷ [])
      tcp_output-IsPlain refl (omega arith) (omega arith)
