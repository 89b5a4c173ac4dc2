-- ===== src/Rows/Tuples.antt =====
-- What loops over the tuples of a stream come to, and the singular row of a stream.
use google_cloud_cpp_spanner.Prelude.{
  ℕ, zero, suc, ◌+◌, ◌<◌, ◌≡◌, refl, sym, ap, subst, if◌then◌else◌, List, [], ◌∷◌, Bool, Option,
  some, length, arith,
}
use google_cloud_cpp_spanner.Values.Host.{Host}
use google_cloud_cpp_spanner.Values.Get.{Got, got, failed, no_rows, too_many_rows}
use google_cloud_cpp_spanner.Rows.Row.{Row, Cells, get_tuple}
use google_cloud_cpp_spanner.Rows.Iterator.{
  RowStreamIterator, TupleStreamIterator, begin, advance, fetched, visits, end, same_end,
  tuples_from, parse_tuple, advance_tuple, get_singular_row, singular_from, unassigned,
}
use google_cloud_cpp_spanner.Rows.Walk.{IsLast, Sends, failure_in}

-- The tuples of some rows, up to the first row that is not one, whose failure is the last.
abbrev pub then_tuples : {A : Type 0} → Got A → List (Got A) → List (Got A)
then_tuples (got x) rest = got x ∷ rest
then_tuples (failed e) rest = failed e ∷ []

abbrev pub tuples_of : (ts : List Host) → List Row → Got Row → List (Got (Cells ts))
tuples_of ts [] last = failure_in last
tuples_of ts (r ∷ rows) last = then_tuples (get_tuple ts r) (tuples_of ts rows last)

abbrev pub is_end_tuple : (ts : List Host) → TupleStreamIterator ts → Bool
is_end_tuple ts t = same_end t.it t.end_it

module _ (answers : ℕ → Got Row) (ts : List Host) where
  abbrev walk : ℕ → TupleStreamIterator ts → Option (List (Got (Cells ts)))
  walk fuel t = visits (is_end_tuple ts) (λ i. i.tup) (advance_tuple answers) fuel t

  abbrev reading : Got (Cells ts) → RowStreamIterator → TupleStreamIterator ts
  reading x i = parse_tuple (record { tup = x; it = i; end_it = end })

  walk-last :
      (fuel n : ℕ) (x : Got (Cells ts)) (last : Got Row)
      → IsLast last
      → 1 < fuel
      → walk fuel (reading x (fetched last n)) ≡ some (failure_in last)
  unfolding visits advance_tuple parse_tuple fetched same_end end
  walk-last zero n x last h more = absurd (omega arith)
  walk-last (suc zero) n x last h more = absurd (omega arith)
  walk-last (suc (suc fuel)) n x (got r) h more = rw h refl
  walk-last (suc (suc fuel)) n x (failed e) h more = refl

  walk-parsed :
      (fuel n : ℕ) (c : Got (Cells ts)) (r : Row) (rest : List (Got (Cells ts)))
      → 1 < fuel
      → ((x : Cells ts)
          → c ≡ got x
          → walk fuel (reading c (fetched (answers n) (suc n))) ≡ some rest)
      → walk
          (suc fuel)
          (record { tup = c; it = record { row = got r; source = some n }; end_it = end })
        ≡ some (then_tuples c rest)
  unfolding visits advance_tuple parse_tuple fetched same_end end advance
  walk-parsed fuel n (got x) r rest more h = rw (h x refl) refl
  walk-parsed zero n (failed e) r rest more h = absurd (omega arith)
  walk-parsed (suc fuel) n (failed e) r rest more h = refl

  walk-Sends :
      (fuel n : ℕ) (x : Got (Cells ts)) (rows : List Row) (last : Got Row)
      → Sends answers n rows last
      → length rows + 1 < fuel
      → walk fuel (reading x (fetched (answers n) (suc n))) ≡ some (tuples_of ts rows last)
  unfolding parse_tuple fetched same_end end
  walk-Sends fuel n x [] last (e, h) more = rw e (walk-last fuel (suc n) x last h (omega arith))
  walk-Sends zero n x (r ∷ rows) last h more = absurd (omega arith)
  walk-Sends (suc fuel) n x (r ∷ rows) last (e, columns, h) more =
      rw (e, columns)
        (walk-parsed fuel (suc n) (get_tuple ts r) r (tuples_of ts rows last) (omega arith)
          (λ y read. walk-Sends fuel (suc n) (get_tuple ts r) rows last h (omega arith)))

  -- A loop over `StreamOf` a stream of rows comes to the tuple of each row, in order, up to the first
  -- row that is not such a tuple, whose failure is the last element; if there is none, the failure
  -- that ends the stream, if one does, is the last.
  pub visits-tuples_from :
      (fuel : ℕ) (rows : List Row) (last : Got Row)
      → Sends answers 0 rows last
      → length rows + 1 < fuel
      → (it : RowStreamIterator) × (begin answers ≡ some it)
        × (visits
              (is_end_tuple ts)
              (λ i. i.tup)
              (advance_tuple answers)
              fuel
              (tuples_from ts it end)
            ≡ some (tuples_of ts rows last))
  unfolding begin advance tuples_from
  visits-tuples_from fuel rows last h more =
      (_, refl, walk-Sends fuel 0 unassigned rows last h more)

-- What `GetSingularRow` makes of the rows of a stream and of what ends it.
abbrev pub singular : List Row → Got Row → Got Row
singular [] (got r) = failed no_rows
singular [] (failed e) = failed e
singular (r ∷ []) (got last) = got r
singular (r ∷ []) (failed e) = failed too_many_rows
singular (r ∷ s ∷ rows) last = failed too_many_rows

second-Sends :
    (answers : ℕ → Got Row) (r : Row) (rows : List Row) (last : Got Row)
    → Sends answers 1 rows last
    → (if same_end (fetched (answers 1) 2) end then got r else failed too_many_rows)
      ≡ singular (r ∷ rows) last
unfolding fetched same_end end
second-Sends answers r [] (got last) (e, h) = rw (e, h) refl
second-Sends answers r [] (failed f) (e, h) = rw e refl
second-Sends answers r (s ∷ rows) last (e, columns, h) = rw (e, columns) refl

-- `GetSingularRow` gives the row of a stream that has just one. It fails when there is none, and
-- with the failure that comes in its place; and when another row or a failure comes after the
-- first row it says that there are too many.
pub get_singular_row-Sends :
    (answers : ℕ → Got Row) (rows : List Row) (last : Got Row)
    → Sends answers 0 rows last
    → get_singular_row answers ≡ some (singular rows last)
unfolding get_singular_row begin advance singular_from fetched same_end end
get_singular_row-Sends answers [] (got r) (e, h) =
    subst (λ a. singular_from answers (fetched a 1) ≡ some (failed no_rows)) (sym e) (rw h refl)
get_singular_row-Sends answers [] (failed f) (e, h) =
    subst (λ a. singular_from answers (fetched a 1) ≡ some (failed f)) (sym e) refl
get_singular_row-Sends answers (r ∷ rows) last (e, columns, h) =
    subst (λ a. singular_from answers (fetched a 1) ≡ some (singular (r ∷ rows) last)) (sym e)
      (rw columns (ap some (second-Sends answers r rows last h)))
