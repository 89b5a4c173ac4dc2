-- ===== src/Transaction/Examples.antt =====
-- Three visitors of a read-write transaction.
use google_cloud_cpp_spanner.Prelude.{refl, [], ◌∷◌, none, some}
use google_cloud_cpp_spanner.Transaction.Selector.{Selector, begin, id, read_write}
use google_cloud_cpp_spanner.Transaction.Impl.{
  is_done, Visited, Outcome, arrive, wake, finish, throws, step, new_impl, new_visited,
}
use google_cloud_cpp_spanner.Transaction.Visitors.{IsSound}
use google_cloud_cpp_spanner.Transaction.Reachable.{Reach, here, later, Reach-IsSound}

abbrev begins : Selector
begins = begin read_write

abbrev assigned : Outcome
assigned = record { session = some "session"; selector = id "transaction" }

-- Two more visitors arrive while the first is at work; it throws, the one that is notified gets the
-- id, and the last finds the transaction done.
abbrev last_visit : Visited
last_visit = record {
  impl = record {
    state = is_done;
    session = some "session";
    selector = id "transaction";
    seqno = 3;
  };
  waiting = [];
  active = none;
  running = 3 ∷ [];
  called = 3 ∷ 2 ∷ 1 ∷ [];
}

visits : Reach (new_visited (new_impl none begins)) last_visit
unfolding step new_impl new_visited
visits =
    later (wake 0)
      (later (finish 0 assigned)
        (later (wake 1)
          (later (throws 1 (record { session = none; selector = begins }))
            (later arrive (later arrive (later arrive here tt refl) tt refl) tt refl) tt refl)
          tt refl)
        tt refl)
      tt refl

Reach-IsSound_example : IsSound last_visit
Reach-IsSound_example = Reach-IsSound none begins visits
