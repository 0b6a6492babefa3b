-- ===== src/Backup/Stage.antt =====
-- How far the backup of pset3/pt-backup.cc has got with the primary's requests, and what messages
-- can be on the way to it.
use cs2620_s26_psets.Base.{
  ℕ, ◌+◌, ◌≤◌, ◌≡◌, refl, ap, ◌⊎◌, inl, inr, List, [], ◌∷◌, ◌++◌, arith, All, All-append, length,
  ◌∙◌, sym, append_nil,
}
use cs2620_s26_psets.Pancy.Msgs.{Request}
use cs2620_s26_psets.Backup.Defs.{PrimaryState, forwarding, waiting, primary_returned}

-- Every message has serial number `e`.
abbrev pub Repeats : ℕ → List (ℕ × Request) → Type 0
Repeats e ms = All (λ m. m.0 ≡ e) ms

-- Messages with serial number `e`, then copies of the next request.
unfoldable pub Window : ℕ → Request → List (ℕ × Request) → Type 0
Window e req [] = Unit
Window e req (m ∷ ms) =
    ((m.0 ≡ e) × Window e req ms) ⊎ ((m ≡ (e + 1, req)) × All (λ n. n ≡ (e + 1, req)) ms)

-- The primary's state and serial number, the serial number that the backup has reached, the
-- requests that each has processed, and the messages from the primary to the backup.
unfoldable pub Stage :
    PrimaryState → ℕ → ℕ → List Request → List Request → List (ℕ × Request) → Type 0
Stage waiting serial e done applied ms = (serial ≡ e) × (applied ≡ done) × Repeats e ms
Stage (forwarding req) serial e done applied ms =
    ((serial ≡ e + 1) × (applied ≡ done) × Window e req ms)
    ⊎ ((serial ≡ e) × (applied ≡ done ++ (req ∷ [])) × Repeats e ms)
Stage primary_returned serial e done applied ms = (serial ≡ e) × (applied ≡ done) × Repeats e ms

Repeats-Window : (e : ℕ) (req : Request) (ms : List (ℕ × Request)) → Repeats e ms → Window e req ms
unfolding Window
Repeats-Window e req [] h = tt
Repeats-Window e req (m ∷ ms) h = inl (h.0, Repeats-Window e req ms h.1)

append-Window :
    (e : ℕ) (req : Request) (ms : List (ℕ × Request))
    → Window e req ms
    → Window e req (ms ++ ((e + 1, req) ∷ []))
unfolding Window
append-Window e req [] h = inr (refl, tt)
append-Window e req (m ∷ ms) (inl h) = inl (h.0, append-Window e req ms h.1)
append-Window e req (m ∷ ms) (inr h) =
    inr (h.0, All-append (λ n. n ≡ (e + 1, req)) ms ((e + 1, req) ∷ []) h.1 (refl, tt))

copies-Repeats :
    (e : ℕ) (req : Request) (ms : List (ℕ × Request))
    → All (λ n. n ≡ (e + 1, req)) ms
    → Repeats (e + 1) ms
copies-Repeats e req [] h = tt
copies-Repeats e req (m ∷ ms) h = (ap (λ n. n.0) h.0, copies-Repeats e req ms h.1)

module _ (serial e : ℕ) (done applied : List Request) (ms : List (ℕ × Request)) where
  pub start-Stage :
      (req : Request)
      → Stage waiting serial e done applied ms
      → Stage (forwarding req) (serial + 1) e done applied ms
  unfolding Stage
  start-Stage req (s, a, h) = inl (omega arith, a, Repeats-Window e req ms h)

  pub resend-Stage :
      (req : Request)
      → Stage (forwarding req) serial e done applied ms
      → Stage (forwarding req) serial e done applied (ms ++ ((serial, req) ∷ []))
  unfolding Stage
  resend-Stage req (inl (s, a, h)) = inl (s, a, rw s (append-Window e req ms h))
  resend-Stage req (inr (s, a, h)) =
      inr (s, a, All-append (λ m. m.0 ≡ e) ms ((serial, req) ∷ []) h (s, tt))

  pub finish-Stage :
      (req : Request)
      → serial ≤ e
      → Stage (forwarding req) serial e done applied ms
      → Stage waiting serial e (done ++ (req ∷ [])) applied ms
  unfolding Stage
  finish-Stage req b (inl (s, a, h)) = ground (arith, s, b)
  finish-Stage req b (inr (s, a, h)) = (s, a, h)

  pub return-Stage :
      Stage waiting serial e done applied ms → Stage primary_returned serial e done applied ms
  unfolding Stage
  return-Stage h = h

  -- The message that the backup receives next is the next request or a copy of an earlier one.
  pub receive-Stage :
      (p : PrimaryState) (m : ℕ × Request)
      → Stage p serial e done applied (m ∷ ms)
      → ((m.0 ≡ e + 1) × Stage p serial (e + 1) done (applied ++ (m.1 ∷ [])) ms)
        ⊎ ((m.0 ≡ e) × Stage p serial e done applied ms)
  unfolding Stage Window
  receive-Stage waiting m (s, a, h) = inr (h.0, (s, a, h.1))
  receive-Stage primary_returned m (s, a, h) = inr (h.0, (s, a, h.1))
  receive-Stage (forwarding req) m (inl (s, a, inl h)) = inr (h.0, inl (s, a, h.1))
  receive-Stage (forwarding req) m (inl (s, a, inr h)) =
      inl (ap (λ n. n.0) h.0, inr (s, rw (h.0, a) refl, copies-Repeats e req ms h.1))
  receive-Stage (forwarding req) m (inr (s, a, h)) = inr (h.0, inr (s, a, h.1))

  -- The backup is ahead of the primary by at most one request.
  pub ahead-Stage :
      (p : PrimaryState)
      → Stage p serial e done applied ms
      → (u : List Request) × (applied ≡ done ++ u) × (length u ≤ 1)
  unfolding Stage
  ahead-Stage waiting (s, a, h) = ([], a ∙ sym (append_nil done), omega arith)
  ahead-Stage primary_returned (s, a, h) = ([], a ∙ sym (append_nil done), omega arith)
  ahead-Stage (forwarding req) (inl (s, a, h)) = ([], a ∙ sym (append_nil done), omega arith)
  ahead-Stage (forwarding req) (inr (s, a, h)) = (req ∷ [], a, omega arith)
