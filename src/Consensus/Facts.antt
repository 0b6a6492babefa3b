-- ===== src/Consensus/Facts.antt =====
-- What holds of every server and every message in a run of pset2/ctconsensus.cc.
use cs2620_s26_psets.Base.{
  ℕ, ◌%◌, ◌≤◌, ◌<◌, ◌≡◌, sym, ◌∙◌, ◌≢◌, Bool, true, false, ◌||◌, Option, none, some, List, [], ◌∷◌,
  arith, ◌==◌, if◌then◌else◌, length, All, All-map_of,
}
use cs2620_s26_psets.Bytes.{Bytes}
use cs2620_s26_psets.Consensus.Msgs.{
  Message, MessageType, m_prepare, m_propose, m_ack, m_decide, Sent, to_server, to_nancy,
}
use cs2620_s26_psets.Consensus.Server.{
  Server, Phase, await_prepare, await_propose, await_ack, finished,
}
use cs2620_s26_psets.Consensus.World.{
  World, Known, Bounded, Chosen, Later, Known-persists, Bounded-persists, Chosen-persists,
}

unfoldable pub has_round : ℕ → List ℕ → Bool
has_round q [] = false
has_round q (x ∷ xs) = x == q || has_round q xs

unfoldable pub color_at : ℕ → List (ℕ × Bytes) → Option Bytes
color_at q [] = none
color_at q ((r, c) ∷ ps) = if r == q then some c else color_at q ps

-- Server i is as the world says.
pub record Reads (n : ℕ) (w : World) (i : ℕ) (s : Server) : Type 0 where
  pub read_round : w.rounds i ≡ s.round
  pub read_acked : (q : ℕ) → w.acked i q ≡ has_round q s.voted
  pub read_proposal : (q : ℕ) → q % n ≡ i → w.proposal q ≡ color_at q s.proposed

-- What the sender of a message knew.
abbrev pub MsgFor : ℕ → World → Message → MessageType → Type 0
MsgFor n w m m_prepare =
    (m.sender < n)
    × Known w m.color m.color_round
    × (m.color_round < m.round)
    × (m.round ≤ w.rounds m.sender)
    × Bounded w m.sender m.round m.color_round
MsgFor n w m m_propose = (1 ≤ m.round) × (w.proposal m.round ≡ some m.color)
MsgFor n w m m_ack = (m.sender < n) × (m.ack ≡ true → w.acked m.sender m.round ≡ true)
MsgFor n w m m_decide = Chosen n w m.color

unfoldable pub MsgOk : ℕ → World → Message → Type 0
MsgOk n w m = MsgFor n w m m.type

-- A message as server j sends it.
unfoldable pub OutOk : ℕ → World → ℕ → Sent → Type 0
unfolding MsgOk
OutOk n w j (to_server d, m) = (d < n) × MsgOk n w (record m { sender = j })
OutOk n w j (to_nancy, m) = MsgOk n w (record m { sender = j })

-- What holds in each phase.
abbrev pub PhaseFor : ℕ → World → ℕ → Server → Phase → Type 0
PhaseFor n w j s (await_prepare k) =
    Known w s.color s.color_round
    × (s.color_round < s.round)
    × (s.round % n ≡ j)
    × (w.proposal s.round ≡ none)
    × (length s.counted ≡ k)
    × All (λ i. (i < n) × (s.round ≤ w.rounds i) × Bounded w i s.round s.color_round) s.counted
PhaseFor n w j s await_propose =
    Known w s.color s.color_round
    × (s.color_round < s.round)
    × (s.round % n ≡ j → w.proposal s.round ≡ some s.color)
PhaseFor n w j s (await_ack a t) =
    Known w s.color s.color_round
    × (s.round % n ≡ j)
    × (w.proposal s.round ≡ some s.color)
    × (length s.counted ≡ a)
    × All (λ i. (i < n) × (w.acked i s.round ≡ true)) s.counted
PhaseFor n w j s finished = Chosen n w s.color

unfoldable pub PhaseOk : ℕ → World → ℕ → Server → Type 0
PhaseOk n w j s = PhaseFor n w j s s.phase

-- What a server knows apart from its phase.
pub record Base (n : ℕ) (w : World) (j : ℕ) (s : Server) : Type 0 where
  pub ident : s.id ≡ j
  pub size_n : s.n ≡ n
  pub inside_n : j < n
  pub started : 1 ≤ s.round
  pub color_le : s.color_round ≤ s.round
  pub votes_le : (q : ℕ) → w.acked j q ≡ true → (1 ≤ q) × (q ≤ s.color_round)
  pub fresh_rounds : (q : ℕ) → s.round < q → q % n ≡ j → w.proposal q ≡ none
  pub stash_ok : All (MsgOk n w) s.stash

module _ (n j : ℕ) (w w' : World) (l : Later n j w w') where
  pub MsgOk-persists : (m : Message) → MsgOk n w m → MsgOk n w' m
  unfolding MsgOk
  MsgOk-persists m h = go m.type h
    where
      go : (t : MessageType) → MsgFor n w m t → MsgFor n w' m t
      go m_prepare (a, b, c, d, e) = (
        a,
        Known-persists n j w w' l m.color m.color_round b,
        c,
        omega (arith, d, l.rounds_grow m.sender),
        Bounded-persists n j w w' l m.sender m.round m.color_round d e,
      )
      go m_propose (a, b) = (a, l.proposals_stay m.round m.color b)
      go m_ack (a, b) = (a, λ e. l.acks_stay m.sender m.round (b e))
      go m_decide h = Chosen-persists n j w w' l m.color h

  -- Another server, when server j has done something.
  pub Base-persists :
      (i : ℕ) (s : Server) → i ≢ j → Reads n w i s → Reads n w' i s → Base n w i s → Base n w' i s
  Base-persists i s ne r r' h = record {
    ident = h.ident;
    size_n = h.size_n;
    inside_n = h.inside_n;
    started = h.started;
    color_le = h.color_le;
    votes_le = λ q a. h.votes_le q (r.read_acked q ∙ sym (r'.read_acked q) ∙ a);
    fresh_rounds = λ q k e. r'.read_proposal q e ∙ sym (r.read_proposal q e) ∙ h.fresh_rounds q k e;
    stash_ok = All-map_of s.stash (λ m k. MsgOk-persists m k) h.stash_ok;
  }

  -- The same server, when no proposal of its rounds is new.
  pub PhaseFor-persists :
      (i : ℕ) (s : Server)
      → ((q : ℕ) → q % n ≡ i → w'.proposal q ≡ w.proposal q)
      → (p : Phase) → PhaseFor n w i s p
      → PhaseFor n w' i s p
  PhaseFor-persists i s same (await_prepare k) (z, a, b, c, d, e) = (
    Known-persists n j w w' l s.color s.color_round z,
    a,
    b,
    same s.round b ∙ c,
    d,
    All-map_of s.counted
        (λ x (f, g, v). (
          f,
          omega (arith, g, l.rounds_grow x),
          Bounded-persists n j w w' l x s.round s.color_round g v,
        ))
        e,
  )
  PhaseFor-persists i s same await_propose (z, a, b) = (
    Known-persists n j w w' l s.color s.color_round z,
    a,
    λ e. l.proposals_stay s.round s.color (b e),
  )
  PhaseFor-persists i s same (await_ack a t) (z, b, c, d, e) = (
    Known-persists n j w w' l s.color s.color_round z,
    b,
    l.proposals_stay s.round s.color c,
    d,
    All-map_of s.counted (λ x (f, g). (f, l.acks_stay x s.round g)) e,
  )
  PhaseFor-persists i s same finished h = Chosen-persists n j w w' l s.color h

-- The stash does not matter for a phase.
pub PhaseFor-stash :
    (n : ℕ) (w : World) (j : ℕ) (s : Server) (ms : List Message) (k : ℕ) (p : Phase)
    → PhaseFor n w j s p
    → PhaseFor n w j (record s { stash = ms; stash_size = k }) p
PhaseFor-stash n w j s ms k (await_prepare c) h = h
PhaseFor-stash n w j s ms k await_propose h = h
PhaseFor-stash n w j s ms k (await_ack a t) h = h
PhaseFor-stash n w j s ms k finished h = h
