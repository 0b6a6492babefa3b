-- ===== src/Http/TrackSteps.antt =====
-- How the parts of a query grow in http_message::make_info, cotamer/http.cc.
use cs2620_s26_psets.Base.{
  ℕ, ◌+◌, ◌%◌, ◌^◌, ◌<◌, ◌≡◌, refl, sym, ap, ◌∙◌, false, List, [], ◌∷◌, ◌++◌, arith, length, All,
  length-append, append_assoc, All-map_of,
}
use cs2620_s26_psets.Bytes.{Bytes}
use cs2620_s26_psets.Http.Views.{Fits, Fits-extend, views, views-extend}
use cs2620_s26_psets.Http.Lines.{small}
use cs2620_s26_psets.Http.Query.{
  QueryInfo, at_start, position, add_pair, add_pending, take_ampersand, take_equals,
}
use cs2620_s26_psets.Http.Machine.{Part, p_start, p_name, p_value, emit, begin_value, is_value_part}
use cs2620_s26_psets.Http.Tracks.{text, Tracks, position-text, add_pair-Tracks, Follows}

pub text-add_pending : (q : QueryInfo) (b : ℕ) → text (add_pending b q) ≡ text q ++ (b ∷ [])
text-add_pending q b = sym (append_assoc q.qurl q.pending (b ∷ []))

length-text-add_pending :
    (q : QueryInfo) (b : ℕ) → length (text (add_pending b q)) ≡ length (text q) + 1
length-text-add_pending q b = rw (text-add_pending q b, length-append (text q) (b ∷ [])) refl

no_more : (n : ℕ) → n ≡ n + 0
no_more n = omega arith

-- After a pair, the next byte is a separator.
restart-Tracks :
    (q : QueryInfo) (t : Bytes) (done : List (Bytes × Bytes))
    → text q ≡ t
    → All (Fits t) q.qpairs
    → views t q.qpairs ≡ done
    → q.state ≡ at_start
    → length t + 1 < 2 ^ 32
    → let q1 = add_pending b'&' q in
      Tracks (record q1 { nstart = position q1; nend = position q1 }) p_start done
      × (length (text q1) ≡ length t + 1)
restart-Tracks q t done e fit vs st b =
    let more : text (add_pending b'&' q) ≡ t ++ (b'&' ∷ []) =
      text-add_pending q b'&' ∙ ap (λ u. u ++ (b'&' ∷ [])) e in
    let size : length (text (add_pending b'&' q)) ≡ length t + 1 =
      rw (more, length-append t (b'&' ∷ [])) refl in
    (
      record {
        all_fit = rw more (All-map_of q.qpairs (λ x f. Fits-extend t (b'&' ∷ []) x f) fit);
        pairs_done = rw more (views-extend t (b'&' ∷ []) q.qpairs fit (omega arith) ∙ vs);
        follows = (st, position-text (add_pending b'&' q) (omega (arith, size)));
      },
      size,
    )

pub take_ampersand-Tracks :
    (q : QueryInfo) (p : Part) (done : List (Bytes × Bytes))
    → Tracks q p done
    → length (text q) + 1 < 2 ^ 32
    → Tracks (take_ampersand q) p_start (done ++ emit p)
      × (length (text (take_ampersand q)) ≡ length (text q) + 1)
unfolding take_ampersand
take_ampersand-Tracks q p done h b =
    let pair = add_pair-Tracks q p done h (omega arith) in
    rw (position-text q (omega arith)) (
      restart-Tracks (add_pair (length (text q)) q) (text q) (done ++ emit p) pair.3 pair.0 pair.1
        pair.2 b)

pub take_equals-Tracks :
    (q : QueryInfo) (p : Part) (done : List (Bytes × Bytes))
    → Tracks q p done
    → is_value_part p ≡ false
    → length (text q) + 1 < 2 ^ 32
    → Tracks (take_equals q) (begin_value p) done
      × (length (text (take_equals q)) ≡ length (text q) + 1)
unfolding take_equals
take_equals-Tracks q p done h g b = (
  record {
    all_fit = rw more (All-map_of q.qpairs (λ x f. Fits-extend (text q) (b'=' ∷ []) x f) h.all_fit);
    pairs_done =
        rw more (views-extend (text q) (b'=' ∷ []) q.qpairs h.all_fit (omega arith) ∙ h.pairs_done);
    follows = equals-Follows p g h.follows;
  },
  length-text-add_pending q b'=',
)
  where
    more : text (add_pending b'=' q) ≡ text q ++ (b'=' ∷ [])
    more = text-add_pending q b'='

    place : position q ≡ length (text q)
    place = position-text q (omega arith)

    next : (position q + 1) % 2 ^ 32 ≡ length (text q) + 1
    next = rw place (small (length (text q) + 1) b)

    equals-Follows :
        (p : Part) → is_value_part p ≡ false → Follows q p → Follows (take_equals q) (begin_value p)
    equals-Follows p_start g f =
        (refl, text q, more, f.1, place ∙ no_more (length (text q)), next ∙ omega arith)
    equals-Follows (p_name n) g f =
        let (at, pre, e, first) = f in
        let size : length (text q) ≡ length pre + length n = rw e (length-append pre n) in
        (
          refl,
          pre,
          more ∙ rw e (append_assoc pre n (b'=' ∷ [])),
          first,
          place ∙ size,
          next ∙ omega (arith, size),
        )
    equals-Follows (p_value n v) g f = cc
