-- ===== src/Rows/Walk.antt =====
-- What loops over the rows of a stream come to.
use google_cloud_cpp_spanner.Prelude.{
  ℕ, zero, suc, ◌+◌, ◌<◌, ◌≡◌, refl, List, [], ◌∷◌, ◌++◌, map, true, false, ◌==◌, Option, some,
  length, arith,
}
use google_cloud_cpp_spanner.Values.Get.{Got, got, failed}
use google_cloud_cpp_spanner.Rows.Row.{Row, size}
use google_cloud_cpp_spanner.Rows.Iterator.{
  RowStreamIterator, begin, advance, fetched, visits, is_end,
}

-- What ends a stream: a row without columns, or a failure.
abbrev pub IsLast : Got Row → Type 0
IsLast (got r) = (size r == 0) ≡ true
IsLast (failed e) = Unit {0}

-- From its `n`-th call on, the source answers with these rows, which have columns, and then with
-- what ends the stream.
abbrev pub Sends : (ℕ → Got Row) → ℕ → List Row → Got Row → Type 0
Sends answers n [] last = (answers n ≡ last) × IsLast last
Sends answers n (r ∷ rows) last =
    (answers n ≡ got r) × ((size r == 0) ≡ false) × Sends answers (suc n) rows last

-- A failure is one more element of the range.
abbrev pub failure_in {ℓ κ} : {A : Type ℓ} {B : Type κ} → Got B → List (Got A)
failure_in (got b) = []
failure_in (failed e) = failed e ∷ []

module _ (answers : ℕ → Got Row) where
  abbrev pub rows_visited : ℕ → RowStreamIterator → Option (List (Got Row))
  rows_visited fuel it = visits is_end (λ i. i.row) (advance answers) fuel it

  visits-failed :
      (fuel n : ℕ) (last : Got Row)
      → IsLast last
      → 1 < fuel
      → rows_visited fuel (fetched last n) ≡ some (failure_in last)
  unfolding visits advance fetched
  visits-failed zero n last h more = absurd (omega arith)
  visits-failed (suc zero) n last h more = absurd (omega arith)
  visits-failed (suc (suc fuel)) n (got r) h more = rw h refl
  visits-failed (suc (suc fuel)) n (failed e) h more = refl

  visits-Sends :
      (fuel n : ℕ) (rows : List Row) (last : Got Row)
      → Sends answers n rows last
      → length rows + 1 < fuel
      → rows_visited fuel (fetched (answers n) (suc n)) ≡ some (map got rows ++ failure_in last)
  unfolding visits advance fetched
  visits-Sends fuel n [] last (e, h) more = rw e (visits-failed fuel (suc n) last h (omega arith))
  visits-Sends zero n (r ∷ rows) last h more = absurd (omega arith)
  visits-Sends (suc fuel) n (r ∷ rows) last (e, columns, h) more =
      rw (e, columns, visits-Sends fuel (suc n) rows last h (omega arith)) refl

  -- A loop over a stream of rows comes to each row that the source answers with, in order, and to
  -- the failure that ends the stream if one does; a row without columns ends it and is not visited.
  pub visits-begin :
      (fuel : ℕ) (rows : List Row) (last : Got Row)
      → Sends answers 0 rows last
      → length rows + 1 < fuel
      → (it : RowStreamIterator) × (begin answers ≡ some it)
        × (visits is_end (λ i. i.row) (advance answers) fuel it
            ≡ some (map got rows ++ failure_in last))
  unfolding begin advance
  visits-begin fuel rows last h more = (_, refl, visits-Sends fuel 0 rows last h more)
