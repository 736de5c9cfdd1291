-- ===== src/Outputs/Edi/Delivery.antt =====
-- A frame of the EDI output, from `write_frame` to the tags that a receiver reads.
use odr_source_companion.Base.{
  ℕ, suc, ◌+◌, ◌^◌, ◌%◌, ◌<◌, ◌≤◌, u32, IsByte, false, List, [], ◌∷◌, ◌++◌, map, length, append-nil,
  take, All, some, if_false, ◌≡◌, refl, ap, ◌∙◌, subst, arith,
}
use odr_source_companion.Edi.Result.{Result, ok, ◌>>=◌}
use odr_source_companion.Edi.TagItems.{TagItem, dsti, audio_levels}
use odr_source_companion.Edi.TagItems.Frame.{name_of, value_of, tag_of, advance}
use odr_source_companion.Edi.TagPacket.{TagPacket, align}
use odr_source_companion.Edi.TagPacket.Receive.{stream, assembled, receive_padded, receive_tags}
use odr_source_companion.Edi.AfPacket
use odr_source_companion.Edi.AfPacket.{AfPacketiser}
use odr_source_companion.Edi.AfPacket.Receive.{receive_af, receive_af-assemble}
use odr_source_companion.Edi.Transport.{Sender, send_to_all, write_packet, write, send_packet}
use odr_source_companion.Outputs.Edi.{
  EdiOutput, filled_dsti, items_of, packet_of, written_to, sender_of, write_frame,
}
use odr_source_companion.Outputs.Edi.Content.{
  IsSmall, All-Acceptable, stream-IsByte, length-stream_small, ptr-IsSmall, dsti-IsSmall,
  ss-IsSmall, audio-IsSmall, version_items, version_items-IsSmall,
}

-- What the output's sender handed to its destinations, and the fields that moved on.
pub record Delivered (self : EdiOutput) (s : Sender) (offset now : ℕ) (bytes : List ℕ)
    (after : EdiOutput) : Type 0 where
  pub packet : List ℕ
  pub payload : List ℕ
  pub s' : Sender
  pub kept : after.m_edi_sender ≡ some s'
  pub to_all : s'.sent ≡ s.sent ++ send_to_all s.m_conf.destinations packet
  pub sequence : s'.edi_af_packetiser.m_seq ≡ (s.edi_af_packetiser.m_seq + 1) % 2 ^ 16
  pub af : receive_af packet ≡ some (record { seq = s.edi_af_packetiser.m_seq; payload = payload })
  pub tags :
      receive_tags (suc (length payload)) payload
      ≡ some (
          record {
            name = b'*' ∷ b'p' ∷ b't' ∷ b'r' ∷ [];
            value = b'D' ∷ b'S' ∷ b'T' ∷ b'I' ∷ 0 ∷ 0 ∷ 0 ∷ 0 ∷ [];
          }
          ∷ tag_of (dsti (filled_dsti self offset))
          ∷ record { name = b's' ∷ b's' ∷ 0 ∷ 1 ∷ []; value = 0 ∷ 0 ∷ 0 ∷ bytes }
          ∷ tag_of (audio_levels self.levels.m_audio_left self.levels.m_audio_right)
          ∷ map tag_of (version_items self now))
  pub same_conf : s'.m_conf ≡ s.m_conf
  pub same_edi_conf : after.m_edi_conf ≡ self.m_edi_conf
  pub same_version : after.m_odr_version_tag ≡ self.m_odr_version_tag
  pub counter : after.m_edi_tag_dsti.dlfc ≡ (self.m_edi_tag_dsti.dlfc + 1) % 5000
  pub frames : after.m_num_frames_sent ≡ u32 (self.m_num_frames_sent + 1)

items-IsSmall :
    (self : EdiOutput) (offset now : ℕ) (buf : List ℕ) (len : ℕ)
    → len < 2 ^ 24
    → All IsByte buf
    → length self.m_odr_version_tag < 2 ^ 24
    → All IsByte self.m_odr_version_tag
    → (length (items_of self offset now buf len) ≤ 5)
      × All IsSmall (items_of self offset now buf len)
items-IsSmall self offset now buf len small bytes vs vb =
    let last = version_items-IsSmall self now vs vb in
    (
      omega (arith, last.0),
      (
        ptr-IsSmall,
        (
          dsti-IsSmall self offset,
          (
            ss-IsSmall buf len small bytes,
            (audio-IsSmall self.levels.m_audio_left self.levels.m_audio_right, last.1),
          ),
        ),
      ),
    )

-- Without an alignment the payload is the tags, and a receiver reads them.
payload_read :
    (items : List TagItem)
    → All IsSmall items
    → receive_tags (suc (length (stream items))) (stream items) ≡ some (map tag_of items)
payload_read items h =
    subst (λ (l : List ℕ). receive_tags (suc (length l)) l ≡ some (map tag_of items))
      (append-nil (stream items)) (receive_padded items 0 (All-Acceptable items h) (omega arith))

align-unaligned : (bytes : List ℕ) → align 0 bytes ≡ bytes
unfolding align
align-unaligned bytes = refl

stream-short :
    (items : List TagItem) → length items ≤ 5 → All IsSmall items → length (stream items) < 2 ^ 32
stream-short items few all = omega (arith, few, length-stream_small items all)

write-plain :
    (rs_encode : List ℕ → List ℕ) (s : Sender) (write_time : ℕ) (p p' : TagPacket) (packet : List ℕ)
    (packetiser : AfPacketiser)
    → s.m_conf.enable_pft ≡ false
    → AfPacket.assemble s.edi_af_packetiser p ≡ ok (packet, packetiser, p')
    → write rs_encode s write_time p
      ≡ ok (send_packet (record s { edi_af_packetiser = packetiser }) packet, p')
unfolding write write_packet
write-plain rs_encode s write_time p p' packet packetiser plain run =
    ap
      (λ (r : Result (List ℕ × AfPacketiser × TagPacket)). r >>= λ assembled.
        write_packet rs_encode (record s { edi_af_packetiser = assembled.1 }) write_time assembled.0
        >>= λ self'. ok (self', assembled.2))
      run
    ∙ ap (λ (r : Result Sender). r >>= λ self'. ok (self', p'))
        (if_false s.m_conf.enable_pft _ _ plain)

-- A frame of fewer than 2 ^ 24 bytes, written without PFT and without an alignment by an output
-- whose sender is `s`: each destination gets one packet; a receiver reads from it the
-- packetiser's sequence number and the tags in their order, with the frame's bytes as they are in
-- the third; and the frame counter, the sequence number and the number of frames move on.
pub write_frame-Delivered :
    (rs_encode : List ℕ → List ℕ) (self : EdiOutput) (s : Sender) (offset now write_time : ℕ)
    (buf : List ℕ) (len : ℕ)
    → sender_of self ≡ ok s
    → s.m_conf.enable_pft ≡ false
    → self.m_edi_conf.tagpacket_alignment ≡ 0
    → s.edi_af_packetiser.m_seq < 2 ^ 16
    → len < 2 ^ 24
    → All IsByte buf
    → length self.m_odr_version_tag < 2 ^ 24
    → All IsByte self.m_odr_version_tag
    → (after : EdiOutput) × (write_frame rs_encode self offset now write_time buf len ≡ ok after)
      × Delivered self s offset now (take len buf) after
unfolding write_frame send_packet name_of value_of
write_frame-Delivered rs_encode self s offset now write_time buf len made plain unaligned seq small
      bytes vs vb =
    let items = items_of self offset now buf len in
    let (few, all) = items-IsSmall self offset now buf len small bytes vs vb in
    let p = packet_of self offset now buf len in
    let run =
      assembled p (stream items) refl (All-Acceptable items all)
        (ap (λ (a : ℕ). align a (stream items)) unaligned ∙ align-unaligned (stream items)) in
    let (packet, assembled_packet, read) =
      receive_af-assemble s.edi_af_packetiser p (record p { tag_items = map advance items })
        (stream items) seq run (stream-short items few all) (stream-IsByte items all) in
    let tags = payload_read items all in
    let packetiser : AfPacketiser = record { m_seq = (s.edi_af_packetiser.m_seq + 1) % 2 ^ 16 } in
    let s' = send_packet (record s { edi_af_packetiser = packetiser }) packet in
    let written =
      write-plain rs_encode s write_time p (record p { tag_items = map advance items }) packet
        packetiser plain assembled_packet in
    (
      written_to self offset now (s', record p { tag_items = map advance items }),
      ap
            (λ (r : Result Sender). r >>= λ edi_sender.
              write rs_encode edi_sender write_time p >>= λ written.
              ok (written_to self offset now written))
            made
          ∙ ap
              (λ (r : Result (Sender × TagPacket)).
                r >>= λ written. ok (written_to self offset now written))
              written,
      record {
        packet = packet;
        payload = stream items;
        s' = s';
        kept = refl;
        to_all = refl;
        sequence = refl;
        af = read;
        tags = tags;
        same_conf = refl;
        same_edi_conf = refl;
        same_version = refl;
        counter = refl;
        frames = refl;
      },
    )
