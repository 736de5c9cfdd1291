-- ===== src/AvtInput/Datagram/Framing.antt =====
-- Datagrams with an STI-D header after ETSI EN 300 797, with or without an RTP header in front: the
-- independent description of what `_findDABFrameFromUDP` reads.
use odr_source_companion.Base.{
  ℕ, suc, ◌+◌, ◌-◌, ◌*◌, ◌/◌, ◌%◌, ◌^◌, ◌<◌, bit_and, bit_or, u8, u32, ◌>>>◌, bytes16, bytes32, ltb,
  ◌==◌, if◌then◌else◌, le→ltb, all_below, all_below_sound, Bool, true, false, List, [], ◌∷◌, ◌++◌,
  length, get_elem?, drop, take, drop-append, take-append, length-append, append_assoc, some, ◌≡◌,
  refl, ap, sym, ◌∙◌, arith,
}
use odr_source_companion.Base.Bits.{bit_and_ones, bit_or_disjoint}
use odr_source_companion.AvtInput.{AvtInput, type_sti, type_sti_rtp}
use odr_source_companion.AvtInput.Datagram.{
  Found, is_sync, info, read_sti, extract, skip_rtp, find_dab_frame_from_udp,
}

-- The frame of the first stream, and what stands around it. `sync` chooses one of the two sync
-- words; `word` is the second half of the first stream's header, of which the source reads the
-- lowest bit as the flag of a CRC.
pub record StiFrame : Type 0 where
  pub sync : Bool
  pub error : ℕ
  pub sizes : ℕ
  pub control : ℕ
  pub version : ℕ
  pub counter : ℕ
  pub tid : ℕ
  pub word : ℕ
  pub others : List ℕ
  pub end_of_header : ℕ
  pub frame : List ℕ
  pub rest : List ℕ

pub record InRange (f : StiFrame) : Type 0 where
  pub counter_range : f.counter < 8000
  pub tid_range : f.tid < 8
  -- The source takes this bit for the flag of a CRC: `0x80 >> 7` is 1, and comes before `&`.
  pub even_word : f.word % 2 ≡ 0
  pub streams_range : suc (length f.others) < 2 ^ 11
  pub frame_range : length f.frame < 2 ^ 13

abbrev pub words : List ℕ → List ℕ
words [] = []
words (w ∷ ws) = bytes32 w ++ words ws

length-words : (ws : List ℕ) → length (words ws) ≡ length ws * 4
length-words [] = refl
length-words (w ∷ ws) = omega (arith, length-words ws)

abbrev pub sync_word : Bool → List ℕ
sync_word sync =
    (if sync then 0x1F else 0xE0)
    ∷ (if sync then 0x90 else 0x6F)
    ∷ (if sync then 0xCA else 0x35)
    ∷ []

abbrev pub sti_header : StiFrame → List ℕ
sti_header f =
    let streams = suc (length f.others) in
    u8 f.error
    ∷ (sync_word f.sync
        ++ (bytes32 f.sizes
            ++ (bytes32 f.control
                ++ (u8 f.version
                    ∷ (f.counter % 250)
                    ∷ (f.counter / 250 * 8 + streams / 256)
                    ∷ (streams % 256)
                    ∷ (bytes16 (f.tid * 2 ^ 13 + length f.frame)
                        ++ (bytes16 f.word ++ (words f.others ++ bytes32 f.end_of_header)))))))

abbrev pub sti_bytes : StiFrame → List ℕ
sti_bytes f = sti_header f ++ (f.frame ++ f.rest)

abbrev pub sti_found : ℕ → StiFrame → Found
sti_found index f = record {
  index = index + (24 + length f.others * 4);
  data_size = length f.frame;
  frame_number = f.counter;
}

-- What the header's bytes are read as, wherever the header stands.
read_sti-bytes :
    (buf : List ℕ) (i : ℕ) (f : StiFrame)
    → InRange f
    → get_elem? buf (i + 13) ≡ some (f.counter % 250)
    → get_elem? buf (i + 14) ≡ some (f.counter / 250 * 8 + suc (length f.others) / 256)
    → get_elem? buf (i + 14 + 1) ≡ some (suc (length f.others) % 256)
    → get_elem? buf (i + 16) ≡ some (u8 ((f.tid * 2 ^ 13 + length f.frame) / 2 ^ 8))
    → get_elem? buf (i + 16 + 1) ≡ some (u8 (f.tid * 2 ^ 13 + length f.frame))
    → get_elem? buf (i + 19) ≡ some (u8 f.word)
    → read_sti buf i ≡ some (some (sti_found i f))
unfolding read_sti
read_sti-bytes buf i f r h13 h14 h15 h16 h17 h19 =
    let streams = suc (length f.others) in
    let stl = f.tid * 2 ^ 13 + length f.frame in
    let nst_field =
      bit_or_disjoint 8 (f.counter / 250 * 8 + streams / 256) (streams % 256) (omega arith) in
    let stl_field = bit_or_disjoint 8 (u8 (stl / 2 ^ 8)) (u8 stl) (omega arith) in
    let nst : bit_and ((f.counter / 250 * 8 + streams / 256) * 2 ^ 8 + streams % 256) 0x7FF
        ≡ streams =
      bit_and_ones 11 _ 0x7FF refl ∙ omega (arith, r.counter_range, r.streams_range) in
    let some_streams : ltb streams 1 ≡ false = ground arith in
    let size : bit_and (u8 (stl / 2 ^ 8) * 2 ^ 8 + u8 stl) 0x1FFF ≡ length f.frame =
      bit_and_ones 13 _ 0x1FFF refl ∙ omega (arith, r.tid_range, r.frame_range) in
    let flag : bit_and (u8 f.word) 1 ≡ 0 =
      bit_and_ones 1 (u8 f.word) 1 refl ∙ omega (arith, r.even_word) in
    let number : (f.counter / 250 * 8 + streams / 256) / 2 ^ 3 * 250 + f.counter % 250 ≡ f.counter =
      omega (arith, r.streams_range) in
    let start : i + 16 + (streams * 4 + 4) ≡ i + (24 + length f.others * 4) = omega arith in
    let whole : u32 (length f.frame + 2 ^ 32 - 2 * 0) ≡ length f.frame =
      omega (arith, r.frame_range) in
    rw
      (
        h13, h14, h15, nst_field, nst, some_streams, h16, h17, stl_field, h19, size, flag, whole,
        number, start,
      )
      refl

pub length-sti_header : (f : StiFrame) → length (sti_header f) ≡ 24 + length f.others * 4
length-sti_header f =
    let e = length-append {0} (words f.others) (bytes32 f.end_of_header) in
    omega (arith, e, length-words f.others)

-- The data that is found, at an index behind `before`.
frame_at :
    (before : List ℕ) (f : StiFrame)
    → take
        (length f.frame)
        (drop (length before + (24 + length f.others * 4)) (before ++ sti_bytes f))
      ≡ f.frame
frame_at before f =
    let header = before ++ sti_header f in
    let reached : length before + (24 + length f.others * 4) ≡ length header =
      omega (arith, length-append {0} before (sti_header f), length-sti_header f) in
    ap
      (λ (bytes : List ℕ).
        take (length f.frame) (drop (length before + (24 + length f.others * 4)) bytes))
      (sym (append_assoc before (sti_header f) (f.frame ++ f.rest)))
    ∙ ap (take (length f.frame)) (drop-append header (f.frame ++ f.rest) _ reached)
    ∙ take-append f.frame f.rest (length f.frame) refl

sync_word-is_sync :
    (sync : Bool)
    → is_sync
        (if sync then 0x1F else 0xE0)
        (if sync then 0x90 else 0x6F)
        (if sync then 0xCA else 0x35)
      ≡ true
sync_word-is_sync true = refl
sync_word-is_sync false = refl

-- The datagram without an RTP header.
find-sti :
    (self : AvtInput) (f : StiFrame)
    → InRange f
    → find_dab_frame_from_udp self (sti_bytes f)
      ≡ some (some (sti_found 0 f), info self type_sti (length f.frame))
unfolding find_dab_frame_from_udp extract
find-sti self f r =
    rw (sync_word-is_sync f.sync, read_sti-bytes (sti_bytes f) 0 f r refl refl refl refl refl refl)
      refl

-- An RTP header of version 2 and payload type 34.
pub record RtpHeader : Type 0 where
  pub flags : ℕ
  pub marker : Bool
  pub sequence : ℕ
  pub timestamp : ℕ
  pub source : ℕ

abbrev pub rtp_bytes : RtpHeader → List ℕ
rtp_bytes h =
    (0x80 + h.flags % 64)
    ∷ (if h.marker then 162 else 34)
    ∷ (bytes16 h.sequence ++ (bytes32 h.timestamp ++ bytes32 h.source))

version_2 : (low : ℕ) → low < 64 → ((bit_and (0x80 + low) 0xC0 >>> 6) == 2) ≡ true
version_2 low h =
    all_below_sound 64 (λ x. (bit_and (0x80 + x) 0xC0 >>> 6) == 2) low (unfold all_below in refl) h

-- The second byte of the header is the first byte of no sync word.
marker_no_sync : (marker : Bool) (b c : ℕ) → is_sync (if marker then 162 else 34) b c ≡ false
marker_no_sync true b c = refl
marker_no_sync false b c = refl

payload_34 : (marker : Bool) → (bit_and (if marker then 162 else 34) 0x7F == 34) ≡ true
payload_34 true = refl
payload_34 false = refl

find-rtp :
    (self : AvtInput) (h : RtpHeader) (f : StiFrame)
    → InRange f
    → h.sequence < 2 ^ 16
    → find_dab_frame_from_udp self (rtp_bytes h ++ sti_bytes f)
      ≡ some (
        some (sti_found 12 f),
        info (record self { previous_rtp_index = some h.sequence }) type_sti_rtp (length f.frame),
      )
unfolding find_dab_frame_from_udp skip_rtp extract
find-rtp self h f r s =
    let buf = rtp_bytes h ++ sti_bytes f in
    let long : ltb (length buf) 12 ≡ false = le→ltb (length buf) 12 (omega arith) in
    let sequence : bit_or (u8 (h.sequence / 2 ^ 8) * 2 ^ 8) (u8 h.sequence) ≡ h.sequence =
      bit_or_disjoint 8 (u8 (h.sequence / 2 ^ 8)) (u8 h.sequence) (omega arith)
      ∙ omega (arith, s) in
    rw
      (
        marker_no_sync h.marker (u8 (h.sequence / 2 ^ 8)) (u8 h.sequence),
        long,
        version_2 (h.flags % 64) (omega arith),
        payload_34 h.marker,
        sync_word-is_sync f.sync,
        read_sti-bytes buf 12 f r refl refl refl refl refl refl,
        sequence,
      )
      refl

-- A datagram whose fields are in their ranges, and in the header of whose first stream the lowest
-- bit of the last byte is 0, is read without a read past its end, with an RTP header in front and
-- without one: the bytes that are found are the stream's frame, and the number is the frame counter.
-- `_info` counts the frame, and of an RTP header the sequence number is kept. (The lowest bit is what
-- the code tests for a CRC; the comment in the source means the highest one.)
pub find_dab_frame-datagram :
    (self : AvtInput) (h : RtpHeader) (f : StiFrame)
    → InRange f
    → h.sequence < 2 ^ 16
    → (find_dab_frame_from_udp self (sti_bytes f)
        ≡ some (some (sti_found 0 f), info self type_sti (length f.frame)))
      × (take (length f.frame) (drop (sti_found 0 f).index (sti_bytes f)) ≡ f.frame)
      × (find_dab_frame_from_udp self (rtp_bytes h ++ sti_bytes f)
          ≡ some (
            some (sti_found 12 f),
            info
                (record self { previous_rtp_index = some h.sequence })
                type_sti_rtp
                (length f.frame),
          ))
      × (take (length f.frame) (drop (sti_found 12 f).index (rtp_bytes h ++ sti_bytes f)) ≡ f.frame)
find_dab_frame-datagram self h f r s =
    (find-sti self f r, frame_at [] f, find-rtp self h f r s, frame_at (rtp_bytes h) f)
