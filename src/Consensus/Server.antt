-- ===== src/Consensus/Server.antt =====
-- server of pset2/ctconsensus.cc: `receive` with its stash, and the phases of `consensus`. A
-- function stands for what the coroutine does from one message on up to the next that it asks for;
-- it gives the new state and the messages sent.
use cs2620_s26_psets.Base.{
  ℕ, zero, suc, ◌+◌, ◌-◌, ◌/◌, ◌%◌, Bool, true, false, not, ◌||◌, List, [], ◌∷◌, ◌++◌, ltb, leb,
  ◌==◌, if◌then◌else◌, length,
}
use cs2620_s26_psets.Bytes.{Bytes}
use cs2620_s26_psets.Consensus.Msgs.{
  MessageType, Message, Sent, to_server, propose_message, is_decide, m_prepare, to_nancy,
  prepare_message, ack_message, decide_message, m_propose, same_type, m_ack,
}

-- The call of `receive` in which consensus() waits: phase 2 with its count, phase 4, or phase 5
-- with its counts; or it is done.
pub data Phase : Type 0 where
  await_prepare : ℕ → Phase
  await_propose : Phase
  await_ack : ℕ → ℕ → Phase
  finished : Phase

-- `stash_size` is the local variable of `receive`. The last three fields are history, which the
-- code does not have: the senders of the messages counted in this phase, the rounds that were
-- acknowledged with true, and the proposals made.
pub record Server : Type 0 where
  pub id : ℕ
  pub n : ℕ
  pub color : Bytes
  pub round : ℕ
  pub color_round : ℕ
  pub stash : List Message
  pub decided : Bool
  pub phase : Phase
  pub stash_size : ℕ
  pub counted : List ℕ
  pub voted : List ℕ
  pub proposed : List (ℕ × Bytes)

abbrev pub leader : Server → ℕ
leader s = s.round % s.n

-- `receive` is called.
unfoldable pub await : Phase → Server → Server
await phase s = record s { phase = phase; stash_size = length s.stash }

-- The message to each of the servers from 0 to count - 1.
unfoldable pub to_all : ℕ → Message → List Sent
to_all zero m = []
to_all (suc count) m = to_all count m ++ ((to_server count, m) ∷ [])

unfoldable pub to_others : ℕ → ℕ → Message → List Sent
to_others id zero m = []
to_others id (suc count) m =
    let rest = to_others id count m in
    if count == id then rest else rest ++ ((to_server count, m) ∷ [])

-- The code after the loop of consensus(): send DECIDE.
unfoldable pub finish : Server → Server × List Sent
finish s = (
  record s { phase = finished; stash_size = 0 },
  (to_nancy, decide_message s.color) ∷ to_others s.id s.n (decide_message s.color),
)

-- Phase 1, and the start of phase 2 or 4.
unfoldable pub start_round : Server → Server × List Sent
unfolding await
start_round s = (
  await (if s.id == leader s then await_prepare 0 else await_propose) (record s { counted = [] }),
  (to_server (leader s), prepare_message s.round s.color s.color_round) ∷ [],
)

-- Phase 6.
unfoldable pub advance : Server → Server × List Sent
unfolding start_round
advance s = start_round (record s { round = s.round + 1 })

-- The end of phase 4: acknowledge, then phase 5 or 6.
unfoldable pub acknowledge_round : Bool → Server → Server × List Sent
unfolding advance await
acknowledge_round ack s =
    let message : Sent = (to_server (leader s), ack_message s.round ack) in
    let s1 = record s { voted = if ack then s.round ∷ s.voted else s.voted; counted = [] } in
    if s.id == leader s
    then (await (await_ack 0 0) s1, message ∷ [])
    else ((advance s1).0, message ∷ (advance s1).1)

-- Phase 2: a PREPARE of this round; after a majority, phase 3.
unfoldable pub take_prepare : ℕ → Message → Server → Server × List Sent
unfolding await
take_prepare received m s =
    let s1 =
      if ltb s.color_round m.color_round
      then record s { color = m.color; color_round = m.color_round }
      else s in
    if leb (received + 1) (s1.n / 2)
    then (await (await_prepare (received + 1)) (record s1 { counted = m.sender ∷ s1.counted }), [])
    else (
      await await_propose
          (record s1 { counted = []; proposed = (s1.round, s1.color) ∷ s1.proposed }),
      to_all s1.n (propose_message s1.round s1.color),
    )

-- Phase 4: the PROPOSE of this round.
unfoldable pub take_propose : Message → Server → Server × List Sent
unfolding acknowledge_round
take_propose m s = acknowledge_round true (record s { color = m.color; color_round = s.round })

-- Phase 5: an ACK of this round; after a majority, decide or go on.
unfoldable pub take_ack : ℕ → ℕ → Message → Server → Server × List Sent
unfolding await finish advance
take_ack success total m s =
    let success' = if m.ack then success + 1 else success in
    let counted' = if m.ack then m.sender ∷ s.counted else s.counted in
    let decision = finish (record s { decided = true }) in
    let next = advance s in
    if leb (total + 1) (s.n / 2)
    then (await (await_ack success' (total + 1)) (record s { counted = counted' }), [])
    else if ltb (s.n / 2) success'
    then decision
    else next

-- `stash_.push_back(m)`, if the message is not old.
unfoldable pub put_aside : Message → Server → Server
put_aside m s = if leb s.round m.round then record s { stash = s.stash ++ (m ∷ []) } else s

-- A DECIDE: the calls of `receive` that follow return at once, and every phase then leaves the loop.
unfoldable pub take_decide : Message → Server → Server × List Sent
unfolding finish
take_decide m s = finish (record s { color = m.color; decided = true })

-- One round of the loop of `receive`, with a message of the type `mt` for the phase.
unfoldable pub sort_message :
    MessageType → (Message → Server → Server × List Sent) → Message → Server → Server × List Sent
unfolding take_decide put_aside
sort_message mt take m s =
    let wanted = take m s in
    if is_decide m.type
    then take_decide m s
    else if not (same_type m.type mt) || not (m.round == s.round)
    then (put_aside m s, [])
    else wanted

unfoldable pub handle_message : Message → Server → Server × List Sent
unfolding sort_message take_prepare take_propose take_ack
handle_message m s = elim s.phase [
  | await_prepare received ↦ sort_message m_prepare (take_prepare received) m s
  | await_propose ↦ sort_message m_propose take_propose m s
  | await_ack success total ↦ sort_message m_ack (take_ack success total) m s
  | finished ↦ (s, [])
]

-- `receive` takes the next message of the stash.
unfoldable pub from_stash : Server → Server × List Sent
unfolding handle_message
from_stash s = elim s.stash [
  | [] ↦ (s, [])
  | m ∷ rest ↦
      (let result = handle_message m (record s { stash = rest; stash_size = s.stash_size - 1 }) in
        if s.stash_size == 0 then (s, []) else result)
]

-- `receive` gets a message from the network, when it has gone through the stash.
unfoldable pub from_network : Message → Server → Server × List Sent
unfolding handle_message
from_network m s = handle_message m s

-- The failure detector fires in phase 4.
unfoldable pub failure : Server → Server × List Sent
unfolding acknowledge_round
failure s = elim s.phase [
  | await_prepare received ↦ (s, [])
  | await_propose ↦ acknowledge_round false s
  | await_ack success total ↦ (s, [])
  | finished ↦ (s, [])
]
