-- ===== src/Stream/NextRow.antt =====
-- What a call of `NextRow` returns, in terms of the values that the stream has yet to deliver.
use google_cloud_cpp_spanner.Prelude.{
  ℕ, zero, suc, ◌≤◌, ◌<◌, ◌≡◌, refl, ap, sym, subst, ◌∙◌, inl, inr, List, [], ◌∷◌, ◌++◌, map,
  append-nil, Option, none, some, true, false, arith, length, length-append, length-map, take, drop,
  Bool-cases, List-cases,
}
use google_cloud_cpp_spanner.Status.{Status, StatusOr, value, error, is_ok}
use google_cloud_cpp_spanner.Stream.Value.{Value}
use google_cloud_cpp_spanner.Stream.Source.{
  Field, PartialResultSet, Source, accept, row, end_of_rows, failed, NextRow, next, needs_values,
  take_row, make_row, end_stream, fill, next_row, incomplete_row,
}
use google_cloud_cpp_spanner.Stream.Rows.{pieces, prepend, join, IsDense, is_some}
use google_cloud_cpp_spanner.Stream.Delivery.{IsReady, Pends, accept-Accepted}

-- A source in the middle of its stream.
pub record IsOpen (fields : List Field) (s : Source) (rs : List PartialResultSet) : Type 0 where
  pub ready : IsReady fields s
  pub unfinished : s.finished ≡ false
  pub dense : IsDense (is_some s.chunk) rs

-- A row of the values `vs`, one for each field, under the types and the names of the fields.
pub record IsRow (fields : List Field) (vs : List Value) (typed : List (ℕ × Value)) : Type 0 where
  pub row_values : map (λ t. t.1) typed ≡ vs
  pub row_types : map (λ t. t.0) typed ≡ map (λ f. f.type) fields

-- The answer to a call while the values `vs` are to come.
pub data Delivers (fields : List Field) (vs : List Value) (a : NextRow) : Type 0 where
  ended : vs ≡ [] → a.result ≡ end_of_rows → a.source.finished ≡ true → Delivers fields vs a
  cut_short :
      0 < length vs
      → length vs < length fields
      → a.result ≡ failed incomplete_row
      → Delivers fields vs a
  delivered :
      (typed : List (ℕ × Value))
      → length fields ≤ length vs
      → a.result ≡ row typed (map (λ f. f.name) fields)
      → IsRow fields (take (length fields) vs) typed
      → IsOpen fields a.source a.responses
      → Pends a.source a.responses (drop (length fields) vs)
      → Delivers fields vs a

take_row-IsRow :
    (fs : List Field) (vs : List Value)
    → length fs ≤ length vs
    → IsRow fs (take (length fs) vs) (take_row fs vs).0 × ((take_row fs vs).1 ≡ drop (length fs) vs)
unfolding take_row
take_row-IsRow [] vs h = (record { row_values = refl; row_types = refl }, refl)
take_row-IsRow (f ∷ fs) [] h = absurd (omega arith)
take_row-IsRow (f ∷ fs) (v ∷ vs) h =
    let (r, e) = take_row-IsRow fs vs (omega arith) in
    (record { row_values = ap (◌∷◌ v) r.row_values; row_types = ap (◌∷◌ f.type) r.row_types }, e)

take-append {ℓ} :
    {A : Type ℓ} (n : ℕ) (xs ys : List A) → n ≤ length xs → take n (xs ++ ys) ≡ take n xs
take-append zero xs ys h = refl
take-append (suc n) [] ys h = absurd (omega arith)
take-append (suc n) (x ∷ xs) ys h = ap (◌∷◌ x) (take-append n xs ys (omega arith))

drop-append {ℓ} :
    {A : Type ℓ} (n : ℕ) (xs ys : List A) → n ≤ length xs → drop n (xs ++ ys) ≡ drop n xs ++ ys
drop-append zero xs ys h = refl
drop-append (suc n) [] ys h = absurd (omega arith)
drop-append (suc n) (x ∷ xs) ys h = drop-append n xs ys (omega arith)

-- The values to come begin with those in the buffer.
prepend-inv :
    (xs vs : List Value) (r : StatusOr (List Value))
    → prepend xs r ≡ value vs
    → (ws : List Value) × (r ≡ value ws) × (xs ++ ws ≡ vs)
prepend-inv xs vs (value ws) e = (ws, refl, same e)
  where
    same : {a b : List Value} → value a ≡ value b → a ≡ b
    same e = cc
prepend-inv xs vs (error d) e = cc

-- The two ways out of the loop's condition.
stocked : (s : Source) → needs_values s ≡ false → (length s.columns ≤ length s.buffer)
stocked s e = ground arith

lacking :
    (s : Source) → needs_values s ≡ true → 0 < length s.columns → length s.buffer < length s.columns
lacking s e h = ground arith

make_row-some :
    (s : Source) (o : Option (List Field)) (rs : List PartialResultSet) (fields : List Field)
    → o ≡ some fields
    → 0 < length fields
    → make_row s o rs
      ≡ next
          (row (take_row fields s.buffer).0 s.columns)
          (record s { buffer = (take_row fields s.buffer).1 })
          rs
unfolding make_row
make_row-some s o rs [] e h = absurd (omega arith)
make_row-some s o rs (f ∷ fs) e h = rw e

width : (fields : List Field) (s : Source) → IsReady fields s → length s.columns ≡ length fields
width fields s ready = ap length ready.1 ∙ length-map (λ f. f.name) fields

make_row-Delivers :
    (fields : List Field) (vs : List Value) (s : Source) (rs : List PartialResultSet)
    → 0 < length fields
    → IsOpen fields s rs
    → needs_values s ≡ false
    → Pends s rs vs
    → Delivers fields vs (make_row s s.metadata rs)
make_row-Delivers fields vs s rs h o enough p =
    let (ws, ew, es) = prepend-inv s.buffer vs (join s.chunk (pieces rs)) p in
    let fits : length fields ≤ length s.buffer =
      omega (arith, stocked s enough, width fields s o.ready) in
    let (is_row, left) = take_row-IsRow fields s.buffer fits in
    subst (Delivers fields vs) (sym (make_row-some s s.metadata rs fields o.ready.0 h)) (
      delivered (take_row fields s.buffer).0
        (omega (arith, fits, length-append s.buffer ws, ap length es))
        (ap (row (take_row fields s.buffer).0) o.ready.1)
        (subst (λ us. IsRow fields us (take_row fields s.buffer).0)
          (sym (take-append (length fields) s.buffer ws fits) ∙ ap (take (length fields)) es)
          is_row)
        (record { ready = o.ready; unfinished = o.unfinished; dense = o.dense })
        (ap (prepend (take_row fields s.buffer).1) ew
          ∙ ap (λ us. value (us ++ ws)) left
          ∙ ap value
              (sym (drop-append (length fields) s.buffer ws fits) ∙ ap (drop (length fields)) es)))

end_stream_empty :
    (s : Source) (finish : Status)
    → is_ok finish ≡ true
    → s.chunk ≡ none
    → s.buffer ≡ []
    → ((end_stream s finish).result ≡ end_of_rows) × ((end_stream s finish).source.finished ≡ true)
unfolding end_stream
end_stream_empty s finish ok ec eb = ground arith

end_stream_partial :
    (s : Source) (finish : Status) (v : Value) (vs : List Value)
    → is_ok finish ≡ true
    → s.chunk ≡ none
    → s.buffer ≡ v ∷ vs
    → (end_stream s finish).result ≡ failed incomplete_row
unfolding end_stream
end_stream_partial s finish v vs ok ec eb = ground arith

no_chunk : (s : Source) (vs : List Value) → Pends s [] vs → (s.chunk ≡ none) × (s.buffer ≡ vs)
unfolding join
no_chunk s vs p = go s.chunk refl p
  where
    same : {a b : List Value} → value a ≡ value b → a ≡ b
    same e = cc

    go :
        (o : Option Value)
        → s.chunk ≡ o
        → prepend s.buffer (join o []) ≡ value vs
        → (s.chunk ≡ none) × (s.buffer ≡ vs)
    go none e q = (e, sym (append-nil s.buffer) ∙ same q)
    go (some c) e q = cc

end_stream-Delivers :
    (fields : List Field) (vs : List Value) (s : Source) (finish : Status)
    → 0 < length fields
    → is_ok finish ≡ true
    → IsOpen fields s []
    → needs_values s ≡ true
    → Pends s [] vs
    → Delivers fields vs (end_stream s finish)
end_stream-Delivers fields vs s finish h ok o lacks p =
    let (ec, eb) = no_chunk s vs p in
    elim (List-cases s.buffer) [
      | inl empty ↦ let (r, f) = end_stream_empty s finish ok ec empty in ended (sym eb ∙ empty) r f
      | inr (v, rest, e) ↦
          cut_short (omega (arith, ap length eb, ap length e))
            (omega (
              arith,
              ap length eb,
              width fields s o.ready,
              lacking s lacks (omega (arith, width fields s o.ready)),
            ))
            (end_stream_partial s finish v rest ok ec e)
    ]

fill_more :
    (finish : Status) (s : Source) (r : PartialResultSet) (rs : List PartialResultSet)
    → needs_values s ≡ true
    → (accept s r).1 ≡ none
    → fill finish s (r ∷ rs) ≡ fill finish (accept s r).0 rs
unfolding fill
fill_more finish s r rs lacks e = rw (lacks, e)

fill_ready :
    (finish : Status) (s : Source) (rs : List PartialResultSet)
    → needs_values s ≡ false
    → fill finish s rs ≡ make_row s s.metadata rs
unfolding fill
fill_ready finish s [] e = rw e
fill_ready finish s (r ∷ rs) e = rw e

fill_end :
    (finish : Status) (s : Source) → needs_values s ≡ true → fill finish s [] ≡ end_stream s finish
unfolding fill
fill_end finish s e = rw e

fill-Delivers :
    (fields : List Field) (vs : List Value) (finish : Status) (rs : List PartialResultSet)
    (s : Source)
    → 0 < length fields
    → is_ok finish ≡ true
    → IsOpen fields s rs
    → Pends s rs vs
    → Delivers fields vs (fill finish s rs)
fill-Delivers fields vs finish [] s h ok o p = elim (Bool-cases (needs_values s)) [
  | inl lacks ↦ rw (fill_end finish s lacks) (end_stream-Delivers fields vs s finish h ok o lacks p)
  | inr enough ↦ rw (fill_ready finish s [] enough) (make_row-Delivers fields vs s [] h o enough p)
]
fill-Delivers fields vs finish (r ∷ rs) s h ok o p = elim (Bool-cases (needs_values s)) [
  | inl lacks ↦
      let a = accept-Accepted fields r rs vs s o.ready o.unfinished o.dense.0 p in
      rw (fill_more finish s r rs lacks a.accepted) (
        fill-Delivers fields vs finish rs (accept s r).0 h ok
          (record {
            ready = a.ready;
            unfinished = a.unfinished;
            dense = subst (λ b. IsDense b rs) (sym a.open_chunk) o.dense.1;
          })
          a.pends)
  | inr enough ↦
      rw (fill_ready finish s (r ∷ rs) enough) (make_row-Delivers fields vs s (r ∷ rs) h o enough p)
]

-- While the stream has the values `vs` to deliver, however its responses chunk them, a call of
-- `NextRow` returns the row of the first of them, and the others stay to be delivered; with no
-- value left it says that the rows have ended, and with too few for a row it fails.
pub next_row-Delivers :
    (fields : List Field) (vs : List Value) (finish : Status) (rs : List PartialResultSet)
    (s : Source)
    → 0 < length fields
    → is_ok finish ≡ true
    → IsOpen fields s rs
    → Pends s rs vs
    → Delivers fields vs (next_row finish s rs)
unfolding next_row
next_row-Delivers fields vs finish rs s h ok o p =
    simp o.unfinished (fill-Delivers fields vs finish rs s h ok o p)
