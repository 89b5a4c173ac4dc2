-- ===== src/Client/Examples.antt =====
-- The theorems about a client at work, with a service that aborts the first commit.
use google_cloud_cpp_spanner.Prelude.{ℕ, ◌≡◌, refl, [], ◌∷◌, some, inl, false, arith}
use google_cloud_cpp_spanner.Status.{
  Status, value, StatusCode, status, is_rerun_transient, is_rerun_permanent,
}
use google_cloud_cpp_spanner.Retry.Policy.{RetryPolicy, IsLimited}
use google_cloud_cpp_spanner.Retry.Examples.{after_failure, after_failure-lt, doubling}
use google_cloud_cpp_spanner.Transaction.Impl.{is_begin}
use google_cloud_cpp_spanner.Transaction.Selector.{begin, read_write}
use google_cloud_cpp_spanner.Connection.Service.{Rpc, of_options}
use google_cloud_cpp_spanner.Connection.Commits.{commit_request}
use google_cloud_cpp_spanner.Connection.Visiting.{Transacting}
use google_cloud_cpp_spanner.Connection.Examples.{service}
use google_cloud_cpp_spanner.Client.Commit.{Mutated, returned, Rerun, Outcome, turn, client_commit}
use google_cloud_cpp_spanner.Client.Reruns.{IsExplained}
use google_cloud_cpp_spanner.Client.Termination.{client_commit-IsExplained}
use google_cloud_cpp_spanner.Client.Sessions.{Follows, turn-Follows}

-- A rerun policy: the state is how many failures there can still be.
abbrev reruns : RetryPolicy ℕ
reruns = record {
  is_exhausted = λ n. false;
  on_failure = λ n s. after_failure n (is_rerun_permanent s);
}

reruns-IsLimited : IsLimited reruns.on_failure (λ n. n)
reruns-IsLimited p q s h = after_failure-lt p q (is_rerun_permanent s) h

-- A mutator without mutations, which does not use the transaction.
abbrev idle : ℕ → Transacting → Mutated × Transacting
idle k t = (returned (value []), t)

client_commit-IsExplained_example :
    (o : Outcome) × (client_commit service reruns doubling idle 3 2 10 [] ≡ some o)
    × IsExplained service idle reruns 3 o
client_commit-IsExplained_example =
    client_commit-IsExplained service reruns doubling idle (λ n. n) reruns-IsLimited (λ k t h. h) 3
      2 10 [] (omega arith)

abbrev first_pass : Rerun ℕ ℕ
first_pass = record {
  txn = record {
    impl = record {
      state = is_begin;
      session = some "old";
      selector = begin read_write;
      seqno = 0;
    };
    is_bad = false;
    log = [];
  };
  rerun_policy = 2;
  backoff_policy = 10;
  reruns = 0;
  failures = [];
  sleeps = [];
  lost = [];
}

-- The pass behind it: the commit was aborted, and the session is kept.
abbrev aborted : Status
aborted = status StatusCode.aborted "Permanent error in CommitImpl: try again"

abbrev second_pass : Rerun ℕ ℕ
second_pass = record {
  txn = record {
    impl = record {
      state = is_begin;
      session = some "old";
      selector = begin read_write;
      seqno = 0;
    };
    is_bad = false;
    log =
        Rpc.commit (commit_request "old" [] "txn")
        ∷ Rpc.begin_transaction "old" (of_options read_write)
        ∷ [];
  };
  rerun_policy = 1;
  backoff_policy = 20;
  reruns = 1;
  failures = aborted ∷ [];
  sleeps = 10 ∷ [];
  lost = [];
}

passed : turn service reruns doubling idle first_pass ≡ some (inl second_pass)
unfolding turn is_rerun_transient is_rerun_permanent
passed = refl

turn-Follows_example : (s : Status) × Follows "old" first_pass second_pass s
turn-Follows_example =
    turn-Follows service reruns doubling idle "old" first_pass second_pass tt refl passed
