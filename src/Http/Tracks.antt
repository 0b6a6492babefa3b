-- ===== src/Http/Tracks.antt =====
-- The positions that the loop of make_info in cotamer/http.cc keeps, and the texts that they stand
-- for.
use cs2620_s26_psets.Base.{
  ℕ, ◌+◌, ◌-◌, ◌%◌, ◌^◌, ◌<◌, ◌≡◌, refl, sym, ap, ◌∙◌, List, [], ◌∷◌, ◌++◌, arith, length, All,
  length-append, All-append, append_nil, append_assoc, All-map_of,
}
use cs2620_s26_psets.Bytes.{Bytes, codes}
use cs2620_s26_psets.Http.Message.{KvOffsets, view_of}
use cs2620_s26_psets.Http.Views.{
  Fits, Fits-extend, views, pair_of, views-extend, views-append, view_of-middle,
}
use cs2620_s26_psets.Http.Query.{
  QueryInfo, at_start, in_name, in_value, is_in_value, position, add_pair, leave_start,
}
use cs2620_s26_psets.Http.Machine.{Part, p_start, p_name, p_value, emit, push, is_value_part}

-- The decoded text so far.
abbrev pub text : QueryInfo → Bytes
text q = q.qurl ++ q.pending

abbrev pub Follows : QueryInfo → Part → Type 0
Follows q p_start = (q.state ≡ at_start) × (q.nstart ≡ length (text q))
Follows q (p_name n) =
    (q.state ≡ in_name) × (pre : Bytes) × (text q ≡ pre ++ n) × (q.nstart ≡ length pre)
Follows q (p_value n v) =
    (q.state ≡ in_value)
    × (pre : Bytes) × (text q ≡ pre ++ (n ++ (codes "=" ++ v)))
    × (q.nstart ≡ length pre)
    × (q.nend ≡ length pre + length n)
    × (q.vstart ≡ length pre + length n + 1)

pub record Tracks (q : QueryInfo) (p : Part) (done : List (Bytes × Bytes)) : Type 0 where
  pub all_fit : All (Fits (text q)) q.qpairs
  pub pairs_done : views (text q) q.qpairs ≡ done
  pub follows : Follows q p

pub position-text : (q : QueryInfo) → length (text q) < 2 ^ 32 → position q ≡ length (text q)
position-text q b = omega (arith, length-append q.qurl q.pending)

pub is_in_value-part :
    (q : QueryInfo) (p : Part) → Follows q p → is_in_value q.state ≡ is_value_part p
is_in_value-part q p_start h = rw h.0 refl
is_in_value-part q (p_name n) h = rw h.0 refl
is_in_value-part q (p_value n v) h = rw h.0 refl

-- One more pair of views.
add_one :
    (t : Bytes) (ps : List KvOffsets) (done : List (Bytes × Bytes)) (p : KvOffsets) (n v : Bytes)
    → All (Fits t) ps
    → views t ps ≡ done
    → Fits t p
    → pair_of t p ≡ (n, v)
    → All (Fits t) (ps ++ (p ∷ [])) × (views t (ps ++ (p ∷ [])) ≡ done ++ ((n, v) ∷ []))
add_one t ps done p n v h e f g =
    (All-append (Fits t) ps (p ∷ []) h (f, tt), rw (views-append t ps (p ∷ []), e, g) refl)

view_of-end : (t : Bytes) (n : ℕ) → n < 2 ^ 32 → view_of t n n ≡ []
view_of-end t n b = let none_left : (n + 2 ^ 32 - n) % 2 ^ 32 ≡ 0 = omega arith in rw none_left refl

pub view_at :
    (t pre mid post : Bytes) (first last : ℕ)
    → t ≡ pre ++ (mid ++ post)
    → first ≡ length pre
    → last ≡ length pre + length mid
    → length pre + length mid < 2 ^ 32
    → view_of t first last ≡ mid
view_at t pre mid post first last e f g b = rw (e, f, g) (view_of-middle pre mid post b)

name_pair :
    (t pre n : Bytes)
    → t ≡ pre ++ n
    → length t < 2 ^ 32
    → let p : KvOffsets = record {
      name1 = length pre;
      name2 = length t;
      value1 = length t;
      value2 = length t;
    } in
      Fits t p × (pair_of t p ≡ (n, []))
name_pair t pre n e b =
    let size : length t ≡ length pre + length n = rw e (length-append pre n) in
    (
      record {
        name_order = omega (arith, size);
        name_end = omega arith;
        value_order = omega arith;
        value_end = omega arith;
      },
      rw
          (
            view_at t pre n [] (length pre) (length t) (e ∙ ap (λ s. pre ++ s) (sym (append_nil n)))
                refl size (omega (arith, size)),
            view_of-end t (length t) b,
          )
          refl,
    )

value_pair :
    (t pre n v : Bytes)
    → t ≡ pre ++ (n ++ (codes "=" ++ v))
    → length t < 2 ^ 32
    → let p : KvOffsets = record {
      name1 = length pre;
      name2 = length pre + length n;
      value1 = length pre + length n + 1;
      value2 = length t;
    } in
      Fits t p × (pair_of t p ≡ (n, v))
value_pair t pre n v e b =
    let size : length t ≡ length pre + length n + 1 + length v =
      rw (e, length-append pre (n ++ (codes "=" ++ v)), length-append n (codes "=" ++ v))
        (omega arith) in
    (
      record {
        name_order = omega (arith, size);
        name_end = omega (arith, size);
        value_order = omega (arith, size);
        value_end = omega arith;
      },
      rw
          (
            view_at t pre n (codes "=" ++ v) (length pre) (length pre + length n) e refl refl
                (omega (arith, size)),
            view_at t before v [] (length pre + length n + 1) (length t) (e ∙ value_end_lem)
                (omega (arith, before_length)) (omega (arith, size, before_length))
                (omega (arith, size, before_length)),
          )
          refl,
    )
  where
    before : Bytes
    before = pre ++ (n ++ codes "=")

    before_length : length before ≡ length pre + length n + 1
    before_length =
        rw (length-append pre (n ++ codes "="), length-append n (codes "=")) (omega arith)

    value_end_lem : pre ++ (n ++ (codes "=" ++ v)) ≡ before ++ (v ++ [])
    value_end_lem =
        rw (append_nil v, append_assoc pre (n ++ codes "=") v, append_assoc n (codes "=") v) refl

-- The end of a piece.
pub add_pair-Tracks :
    (q : QueryInfo) (p : Part) (done : List (Bytes × Bytes))
    → Tracks q p done
    → length (text q) < 2 ^ 32
    → let q' = add_pair (length (text q)) q in
      All (Fits (text q)) q'.qpairs
      × (views (text q) q'.qpairs ≡ done ++ emit p)
      × (q'.state ≡ at_start)
      × (text q' ≡ text q)
add_pair-Tracks q p_start done h b =
    rw h.follows.0 (h.all_fit, h.pairs_done ∙ sym (append_nil done), refl, refl)
add_pair-Tracks q (p_name n) done h b =
    let (st, pre, e, ns) = h.follows in
    let pair = name_pair (text q) pre n e b in
    let one = add_one (text q) q.qpairs done _ n [] h.all_fit h.pairs_done pair.0 pair.1 in
    rw (st, ns) (one.0, one.1, refl, refl)
add_pair-Tracks q (p_value n v) done h b =
    let (st, pre, e, ns, ne, vs) = h.follows in
    let pair = value_pair (text q) pre n v e b in
    let one = add_one (text q) q.qpairs done _ n v h.all_fit h.pairs_done pair.0 pair.1 in
    rw (st, ns, ne, vs) (one.0, one.1, refl, refl)

-- A byte of a name or a value.
pub push-Tracks :
    (q q' : QueryInfo) (b : ℕ) (p : Part) (done : List (Bytes × Bytes))
    → Tracks q p done
    → length (text q) < 2 ^ 32
    → text q' ≡ text q ++ (b ∷ [])
    → q'.qpairs ≡ q.qpairs
    → q'.state ≡ (leave_start q).state
    → q'.nstart ≡ q.nstart
    → q'.nend ≡ q.nend
    → q'.vstart ≡ q.vstart
    → Tracks q' (push b p) done
push-Tracks q q' b p done h l t ps st ns ne vs = record {
  all_fit = rw (t, ps) (All-map_of q.qpairs (λ x f. Fits-extend (text q) (b ∷ []) x f) h.all_fit);
  pairs_done = rw (t, ps) (views-extend (text q) (b ∷ []) q.qpairs h.all_fit l ∙ h.pairs_done);
  follows = push-Follows p h.follows;
}
  where
    push-Follows : (p : Part) → Follows q p → Follows q' (push b p)
    push-Follows p_start f = (st ∙ rw f.0 refl, text q, t, ns ∙ f.1)
    push-Follows (p_name n) f =
        let (at, pre, e, first) = f in
        (st ∙ rw at refl, pre, t ∙ rw e (append_assoc pre n (b ∷ [])), ns ∙ first)
    push-Follows (p_value n v) f =
        let (at, pre, e, first, last, start) = f in
        (
          st ∙ rw at refl,
          pre,
          t
              ∙ rw
                  (
                    e,
                    append_assoc pre (n ++ (codes "=" ++ v)) (b ∷ []),
                    append_assoc n (codes "=" ++ v) (b ∷ []),
                  )
                  refl,
          ns ∙ first,
          ne ∙ last,
          vs ∙ start,
        )
