-- ===== src/Connection/Visiting.antt =====
-- The members of `ConnectionImpl` that visit a transaction, for a caller that is alone with it, and
-- `Visit` of internal/transaction_impl.h as they use it.
use google_cloud_cpp_spanner.Prelude.{ℕ, suc, Bool, Option, none, some, if◌then◌else◌}
use google_cloud_cpp_spanner.Status.{Status}
use google_cloud_cpp_spanner.Transaction.Selector.{has_begin}
use google_cloud_cpp_spanner.Transaction.Impl.{
  State, TransactionImpl, is_begin, is_pending, is_done,
}
use google_cloud_cpp_spanner.Connection.Service.{Service, Visit, Log}
use google_cloud_cpp_spanner.Connection.Operation.{Operation, perform}

-- A transaction with the mark of its session and the calls made so far.
pub record Transacting : Type 0 where
  pub impl : TransactionImpl
  pub is_bad : Bool
  pub log : Log

-- What the functor is given.
abbrev pub visit_of : Transacting → Visit
visit_of t = record {
  session = t.impl.session;
  is_bad = t.is_bad;
  selector = t.impl.selector;
  log = t.log;
}

-- The transaction behind the functor's call.
abbrev pub visited : State → ℕ → Visit → Transacting
visited s n v = record {
  impl = record { state = s; session = v.session; selector = v.selector; seqno = n };
  is_bad = v.is_bad;
  log = v.log;
}

-- The state behind the call of a functor that was to assign the id.
abbrev pub settled_state : Visit → State
settled_state v = if has_begin v.selector then State.is_begin else State.is_done

abbrev pub settled : {R : Type 0} → (Visit → State) → ℕ → R × Visit → R × Transacting
settled next n (r, v) = (r, visited (next v) n v)

-- `Visit`. While another visitor is to assign the id the caller would wait: none.
unfoldable pub visit :
    {R : Type 0} → (ℕ → Visit → R × Visit) → Transacting → Option (R × Transacting)
visit f t =
    let n = suc t.impl.seqno in
    elim t.impl.state [
      | is_begin ↦ some (settled settled_state n (f n (visit_of t)))
      | is_done ↦ some (settled (λ v. State.is_done) n (f n (visit_of t)))
      | is_pending ↦ none
    ]

-- `Read`, `PartitionRead`, `ExecuteQuery` and the other members.
unfoldable pub run_operation :
    {P B : Type 0} → Service P B → Operation → Transacting → Option (Option Status × Transacting)
unfolding visit perform
run_operation service op t = visit (λ n v. perform service n op v) t
