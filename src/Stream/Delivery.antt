-- ===== src/Stream/Delivery.antt =====
-- What one response adds to the values that the source has yet to deliver: `ReadFromStream`.
use google_cloud_cpp_spanner.Prelude.{
  ℕ, ◌<◌, ◌≡◌, refl, ap, sym, subst, ◌∙◌, inl, inr, List, ◌∷◌, ◌++◌, map, Option, none, some, true,
  false, ◌||◌, arith, length, Option-cases, List-cases,
}
use google_cloud_cpp_spanner.Status.{Status, StatusOr, value, error}
use google_cloud_cpp_spanner.Stream.Value.{Value}
use google_cloud_cpp_spanner.Stream.MergeChunk.{merge_chunk}
use google_cloud_cpp_spanner.Stream.Source.{
  Field, PartialResultSet, Source, take_metadata, take_stats, merge_front, store_values, receive,
  accept,
}
use google_cloud_cpp_spanner.Stream.Rows.{
  pieces, mark_last, prepend, join, pending, join-merged, join-refused, is_some,
  store_values-Stored,
}

-- The metadata have arrived, and the columns are those of the row type.
abbrev pub IsReady : List Field → Source → Type 0
IsReady fields s = (s.metadata ≡ some fields) × (s.columns ≡ map (λ f. f.name) fields)

abbrev pub Pends : Source → List PartialResultSet → List Value → Type 0
Pends s rs vs = pending s rs ≡ value vs

prepend-error :
    (xs vs : List Value) (r : StatusOr (List Value)) (e : Status)
    → prepend xs r ≡ value vs
    → r ≡ error e
    → ⊥
prepend-error xs vs (value ws) e h k = cc
prepend-error xs vs (error d) e h k = cc

-- What taking a response in keeps.
pub record Accepted (fields : List Field) (s : Source) (r : PartialResultSet)
    (rs : List PartialResultSet) (vs : List Value) (t : Source) (failure : Option Status)
    : Type 0 where
  pub accepted : failure ≡ none
  pub ready : IsReady fields t
  pub open_chunk : is_some t.chunk ≡ r.chunked_value
  pub unfinished : t.finished ≡ false
  pub pends : Pends t rs vs

known_metadata :
    (o : Option (List Field)) (s : Source) (fields : List Field)
    → s.metadata ≡ some fields
    → take_metadata o s ≡ s
unfolding take_metadata
known_metadata none s fields e = refl
known_metadata (some fs) s fields e = ground arith

receive_unmerged :
    (s : Source) (r : PartialResultSet)
    → s.chunk ≡ none
    → receive s r ≡ store_values s r.chunked_value r.values
unfolding receive
receive_unmerged s r e = rw (e, merge_front)

receive_merged :
    (s : Source) (r : PartialResultSet) (c v m : Value) (ws : List Value)
    → s.chunk ≡ some c
    → r.values ≡ v ∷ ws
    → merge_chunk c v ≡ value m
    → receive s r ≡ store_values s r.chunked_value (m ∷ ws)
unfolding receive merge_front
receive_merged s r c v m ws ec ev em = rw (ec, ev, merge_front, em)

module _ (fields : List Field) (r : PartialResultSet) (rs : List PartialResultSet)
    (vs : List Value) where
  stored-Accepted :
      (s : Source) (new_values : List Value)
      → IsReady fields s
      → s.finished ≡ false
      → (r.chunked_value ≡ true → 0 < length new_values)
      → prepend s.buffer (join none (mark_last r.chunked_value new_values ++ pieces rs)) ≡ value vs
      → let (t, failure) = store_values s r.chunked_value new_values in
        Accepted fields s r rs vs t failure
  stored-Accepted s new_values ready unf dense p =
      let (ok, oc, md, co, fi, pe) =
        store_values-Stored s r.chunked_value new_values (pieces rs) dense in
      record {
        accepted = ok;
        ready = (md ∙ ready.0, co ∙ ready.1);
        open_chunk = oc;
        unfinished = fi ∙ unf;
        pends = pe ∙ p;
      }

  chunk-Accepted :
      (s : Source) (c v : Value) (ws : List Value) (m : StatusOr Value)
      → merge_chunk c v ≡ m
      → s.chunk ≡ some c
      → r.values ≡ v ∷ ws
      → IsReady fields s
      → s.finished ≡ false
      → prepend s.buffer (join (some c) (mark_last r.chunked_value (v ∷ ws) ++ pieces rs))
        ≡ value vs
      → Accepted fields s r rs vs (receive s r).0 (receive s r).1
  chunk-Accepted s c v ws (error e) em ec ev ready unf p =
      absurd
        (prepend-error s.buffer vs _ e p (join-refused c v e r.chunked_value ws (pieces rs) em))
  chunk-Accepted s c v ws (value m) em ec ev ready unf p =
      rw (receive_merged s r c v m ws ec ev em) (
        stored-Accepted s (m ∷ ws) ready unf (λ _. omega arith)
          (ap (prepend s.buffer) (sym (join-merged c v m r.chunked_value ws (pieces rs) em)) ∙ p))

  receive-Accepted :
      (s : Source)
      → IsReady fields s
      → s.finished ≡ false
      → (is_some s.chunk || r.chunked_value ≡ true → 0 < length r.values)
      → Pends s (r ∷ rs) vs
      → Accepted fields s r rs vs (receive s r).0 (receive s r).1
  receive-Accepted s ready unf dense p = elim (Option-cases s.chunk) [
    | inl ec ↦ rw (receive_unmerged s r ec) (
        stored-Accepted s r.values ready unf (λ h. dense (rw (ec, h)))
          (subst (λ c. prepend s.buffer (join c (pieces (r ∷ rs))) ≡ value vs) ec p))
    | inr (c, ec) ↦ elim (List-cases r.values) [
      | inl ev ↦ absurd (omega (arith, dense (rw ec), ap length ev))
      | inr (v, ws, ev) ↦ chunk-Accepted s c v ws (merge_chunk c v) refl ec ev ready unf (
          subst
            (λ us.
              prepend s.buffer (join (some c) (mark_last r.chunked_value us ++ pieces rs))
              ≡ value vs)
            ev (subst (λ o. prepend s.buffer (join o (pieces (r ∷ rs))) ≡ value vs) ec p))
    ]
  ]

  take_stats-Accepted :
      (o : Option ℕ) (s : Source)
      → IsReady fields s
      → s.finished ≡ false
      → (is_some s.chunk || r.chunked_value ≡ true → 0 < length r.values)
      → Pends s (r ∷ rs) vs
      → let (t, failure) = receive (take_stats o s) r in Accepted fields s r rs vs t failure
  unfolding take_stats
  take_stats-Accepted none s ready unf dense p = receive-Accepted s ready unf dense p
  take_stats-Accepted (some n) s ready unf dense p =
      let a = receive-Accepted (record s { stats = some n }) ready unf dense p in
      record {
        accepted = a.accepted;
        ready = a.ready;
        open_chunk = a.open_chunk;
        unfinished = a.unfinished;
        pends = a.pends;
      }

  pub accept-Accepted :
      (s : Source)
      → IsReady fields s
      → s.finished ≡ false
      → (is_some s.chunk || r.chunked_value ≡ true → 0 < length r.values)
      → Pends s (r ∷ rs) vs
      → Accepted fields s r rs vs (accept s r).0 (accept s r).1
  unfolding accept
  accept-Accepted s ready unf dense p =
      rw (known_metadata r.metadata s fields ready.0)
        (take_stats-Accepted r.stats s ready unf dense p)
