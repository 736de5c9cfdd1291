-- ===== src/Tests/Pads.antt =====
-- src/PadInterface.cpp and the PAD loop of src/odr-sourcecompanion.cpp, with a short datagram before a
-- reply.
use odr_source_companion.Base.{List, [], ◌∷◌, ◌≡◌, refl, true, false, arith}
use odr_source_companion.AvtInput.{AvtInput, avt_input}
use odr_source_companion.AvtInput.Pad.{push_pad_frame}
use odr_source_companion.PadInterface.{
  PadInterface, Reception, datagram, sent_bytes, returns, send_to, request, receive,
}
use odr_source_companion.PadInterface.Replies.{request-reply}
use odr_source_companion.Companion.{fill_pad, filled, take_pad}
use odr_source_companion.Companion.PadFill.{Ends, fill_pad-Ends}

abbrev waiting : List Reception
waiting =
    datagram (7 ∷ 0 ∷ []) ∷ datagram (2 ∷ 10 ∷ 20 ∷ 2 ∷ []) ∷ datagram (2 ∷ 10 ∷ 20 ∷ 2 ∷ []) ∷ []

abbrev padenc : PadInterface
padenc = record {
  m_pad_ident = b'p' ∷ [];
  m_padenc_reachable = true;
  outcomes = sent_bytes 2 ∷ [];
  receptions = waiting;
  sent = [];
}

-- Of the three bytes of the reply one is left.
request-reply_example :
    request padenc 2
    ≡ returns (10 ∷ []) (record (send_to padenc (1 ∷ 2 ∷ []) (sent_bytes 2 ∷ [])) {
      receptions = datagram (2 ∷ 10 ∷ 20 ∷ 2 ∷ []) ∷ [];
    })
request-reply_example =
    request-reply padenc 2 ((7 ∷ 0 ∷ []) ∷ []) (10 ∷ 20 ∷ 2 ∷ [])
      (datagram (2 ∷ 10 ∷ 20 ∷ 2 ∷ []) ∷ []) (omega arith) refl
      ((omega arith, λ e. omega (arith, e)), tt)

abbrev avt : AvtInput
avt = avt_input [] [] 9000 40

fill_pad-Ends_example : Ends 2 padenc avt (fill_pad 4 padenc avt 2)
unfolding avt_input
fill_pad-Ends_example = fill_pad-Ends 4 padenc avt 2 (omega arith) (omega arith)

-- Two whole replies of PAD length 2.
abbrev ready : PadInterface
ready = record padenc {
  receptions = datagram (2 ∷ 10 ∷ 20 ∷ 2 ∷ []) ∷ datagram (2 ∷ 11 ∷ 21 ∷ 1 ∷ []) ∷ [];
}

two_frames :
    fill_pad 3 ready avt 2
    ≡ filled
        (record ready {
          m_padenc_reachable = false;
          outcomes = [];
          receptions = [];
          sent = (1 ∷ 2 ∷ []) ∷ [];
        })
        (record avt { pad_frame_queue = (20 ∷ 10 ∷ []) ∷ (21 ∷ []) ∷ [] })
unfolding fill_pad request receive take_pad push_pad_frame avt_input
two_frames = refl
