-- ===== src/Http/Rounds.antt =====
-- Rounds of the loop of make_info in cotamer/http.cc, with positions and without.
use cs2620_s26_psets.Base.{
  zero, suc, ℕ, ◌+◌, ◌^◌, ◌<◌, ◌≡◌, refl, sym, ◌∙◌, inl, inr, none, List, [], ◌∷◌, ◌++◌, arith,
  ◌==◌, if◌then◌else◌, Bool-cases, Option-cases, length, append_nil, append_assoc, length-append,
  ap, suc,
}
use cs2620_s26_psets.Bytes.{Bytes}
use cs2620_s26_psets.Http.Query.{
  QueryInfo, add_pending, add_decoded, leave_start, escape, take_other, query_step, query_loop,
  add_pair,
}
use cs2620_s26_psets.Http.Machine.{Part, push, token, token_of, part_step, is_value_part, part_loop}
use cs2620_s26_psets.Http.Tracks.{text, Tracks, is_in_value-part, push-Tracks, add_pair-Tracks}
use cs2620_s26_psets.Http.TrackSteps.{take_ampersand-Tracks, take_equals-Tracks, text-add_pending}
use cs2620_s26_psets.Http.Views.{views}

-- One round keeps the positions right.
unfoldable Round :
    ℕ × QueryInfo → ℕ × List (Bytes × Bytes) × Part → List (Bytes × Bytes) → ℕ → Type 0
Round r a done n = (r.0 ≡ a.0) × Tracks r.1 a.2 (done ++ a.1) × (length (text r.1) ≡ n + 1)

add_decoded-text : (q : QueryInfo) (b : ℕ) → text (add_decoded b q) ≡ text q ++ (b ∷ [])
add_decoded-text q b =
    append_nil (q.qurl ++ (q.pending ++ (b ∷ []))) ∙ sym (append_assoc q.qurl q.pending (b ∷ []))

push-Round :
    (q q' : QueryInfo) (k b : ℕ) (p : Part) (done : List (Bytes × Bytes))
    → Tracks q p done
    → length (text q) < 2 ^ 32
    → text q' ≡ text q ++ (b ∷ [])
    → q'.qpairs ≡ q.qpairs
    → q'.state ≡ (leave_start q).state
    → q'.nstart ≡ q.nstart
    → q'.nend ≡ q.nend
    → q'.vstart ≡ q.vstart
    → Round (k, q') (k, [], push b p) done (length (text q))
unfolding Round
push-Round q q' k b p done h l t ps st ns ne vs = (
  refl,
  rw (append_nil done) (push-Tracks q q' b p done h l t ps st ns ne vs),
  rw (t, length-append (text q) (b ∷ [])) refl,
)

take_other-Round :
    (ch : ℕ) (s : Bytes) (q : QueryInfo) (p : Part) (done : List (Bytes × Bytes))
    → Tracks q p done
    → length (text q) < 2 ^ 32
    → Round (take_other ch s q) ((token ch s).0, [], push (token ch s).1 p) done (length (text q))
unfolding take_other token
take_other-Round ch s q p done h b = elim (Option-cases (if ch == b'%' then escape s else none)) [
  | inr (v, e) ↦
      rw (take_other, token, token_of, e)
        (push-Round q (add_decoded v (leave_start q)) 2 v p done h b
          (add_decoded-text (leave_start q) v) refl refl refl refl refl)
  | inl e ↦ elim (Bool-cases (ch == b'+')) [
    | inl f ↦
        rw (take_other, token, token_of, e, f)
          (push-Round q (add_decoded b' ' (leave_start q)) 0 b' ' p done h b
            (add_decoded-text (leave_start q) b' ') refl refl refl refl refl)
    | inr f ↦
        rw (take_other, token, token_of, e, f)
          (push-Round q (add_pending ch (leave_start q)) 0 ch p done h b
            (text-add_pending (leave_start q) ch) refl refl refl refl refl)
  ]
]

query_step-Round :
    (ch : ℕ) (s : Bytes) (q : QueryInfo) (p : Part) (done : List (Bytes × Bytes))
    → Tracks q p done
    → length (text q) + 1 < 2 ^ 32
    → Round (query_step ch s q) (part_step ch s p) done (length (text q))
unfolding Round query_step part_step
query_step-Round ch s q p done h b = elim (Bool-cases (ch == b'&')) [
  | inl e ↦
      rw (query_step, part_step, e)
        (refl, (take_ampersand-Tracks q p done h b).0, (take_ampersand-Tracks q p done h b).1)
  | inr e ↦ elim (Bool-cases (ch == b'=')) [
    | inr f ↦ rw (query_step, part_step, e, f) (take_other-Round ch s q p done h (omega arith))
    | inl f ↦ elim (Bool-cases (is_value_part p)) [
      | inl g ↦
          rw (query_step, part_step, e, f, is_in_value-part q p h.follows, g)
            (take_other-Round ch s q p done h (omega arith))
      | inr g ↦
          rw (query_step, part_step, e, f, is_in_value-part q p h.follows, g)
            (
              refl,
              rw (append_nil done) (take_equals-Tracks q p done h g b).0,
              (take_equals-Tracks q p done h g b).1,
            )
    ]
  ]
]

pub query_loop-Tracks :
    (k : ℕ) (s : Bytes) (q : QueryInfo) (p : Part) (done : List (Bytes × Bytes))
    → Tracks q p done
    → length (text q) + length s < 2 ^ 32
    → let q' = query_loop k s q in
      (views (text q') (add_pair (length (text q')) q').qpairs ≡ done ++ part_loop k s p)
      × (length (text q') < 2 ^ 32)
unfolding query_loop part_loop Round
query_loop-Tracks k [] q p done h b = ((add_pair-Tracks q p done h (omega arith)).1, omega arith)
query_loop-Tracks (suc k) (ch ∷ s) q p done h b = query_loop-Tracks k s q p done h (omega arith)
query_loop-Tracks zero (ch ∷ s) q p done h b =
    let round = query_step-Round ch s q p done h (omega arith) in
    let r = query_step ch s q in
    let a = part_step ch s p in
    let later = query_loop-Tracks r.0 s r.1 a.2 (done ++ a.1) round.1 (omega (arith, round.2)) in
    (
      later.0
          ∙ append_assoc done a.1 (part_loop r.0 s a.2)
          ∙ ap (λ k. done ++ (a.1 ++ part_loop k s a.2)) round.0,
      later.1,
    )
