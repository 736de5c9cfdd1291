-- ===== src/PadInterface.antt =====
-- src/PadInterface.cpp and src/PadInterface.h: requests to ODR-PadEnc. What the socket receives is a
-- list of receptions, and what `sendto` returns a list of outcomes; when one is empty, there is
-- nothing to receive, and nobody to send to.
pub mod Replies
use odr_source_companion.Base.{
  ℕ, ltb, ◌==◌, not, if◌then◌else◌, Bool, true, false, List, [], ◌∷◌, ◌++◌, length, take, drop,
  get_or,
}

abbrev pub message_request : ℕ
message_request = 1

abbrev pub message_pad_data : ℕ
message_pad_data = 2

-- What `sendto` returns: a number of bytes, or an error. The first error stands for EAGAIN,
-- EWOULDBLOCK, ECONNREFUSED and ENOENT.
pub data SendOutcome : Type 0 where
  sent_bytes : ℕ → SendOutcome
  unreachable send_failed : SendOutcome

pub data Reception : Type 0 where
  datagram : List ℕ → Reception
  receive_failed : Reception

pub record PadInterface : Type 0 where
  pub m_pad_ident : List ℕ
  pub m_padenc_reachable : Bool
  pub outcomes : List SendOutcome
  pub receptions : List Reception
  pub sent : List (List ℕ)

-- `logic_error` for an interface that is not open, `runtime_error` for a failed reception.
pub data PadFailure : Type 0 where
  uninitialised cannot_receive : PadFailure

pub data Reply : Type 0 where
  throws : PadFailure → Reply
  returns : List ℕ → PadInterface → Reply

abbrev pub reachable_after : Bool → SendOutcome → Bool
reachable_after reachable (sent_bytes n) = if n == 2 then true else reachable
reachable_after reachable unreachable = false
reachable_after reachable send_failed = reachable

abbrev pub sent_after : List (List ℕ) → List ℕ → SendOutcome → List (List ℕ)
sent_after sent packet (sent_bytes n) = sent ++ take n packet ∷ []
sent_after sent packet unreachable = sent
sent_after sent packet send_failed = sent

abbrev pub send_to : PadInterface → List ℕ → List SendOutcome → PadInterface
send_to self packet [] = record self { m_padenc_reachable = false }
send_to self packet (outcome ∷ outcomes) = record self {
  m_padenc_reachable = reachable_after self.m_padenc_reachable outcome;
  outcomes = outcomes;
  sent = sent_after self.sent packet outcome;
}

-- The loop with a buffer of `size` bytes, which `resize` makes as short as what was received. An empty
-- datagram goes round the loop.
unfoldable pub receive : PadInterface → ℕ → List Reception → Reply
receive self size [] = returns [] (record self { receptions = [] })
receive self size (receive_failed ∷ rest) = throws cannot_receive
receive self size (datagram bytes ∷ rest) =
    let buffer = take size bytes in
    let again = receive self size rest in
    let shorter = receive self (length buffer) rest in
    if length buffer == 0
    then again
    else if get_or buffer 0 0 == message_pad_data
    then returns (drop 1 buffer) (record self { receptions = rest })
    else shorter

unfoldable pub request : PadInterface → ℕ → Reply
unfolding receive
request self padlen =
    if length self.m_pad_ident == 0
    then throws uninitialised
    else let self' = send_to self (message_request ∷ padlen ∷ []) self.outcomes in
      receive self' 2048 self'.receptions
