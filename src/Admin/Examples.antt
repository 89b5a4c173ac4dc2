-- ===== src/Admin/Examples.antt =====
-- The theorems about the admin connections at work.
use Prim.Native.String.{String}
use text.Mathlib.Text.{◌==◌}
use google_cloud_cpp_spanner.Prelude.{ℕ, zero, suc, ◌≡◌, refl, List, [], ◌∷◌, not, some}
use google_cloud_cpp_spanner.Prelude.Int.{pos}
use google_cloud_cpp_spanner.Status.{StatusCode, status, StatusOr, value, error}
use google_cloud_cpp_spanner.Retry.Loop.{Report}
use google_cloud_cpp_spanner.Retry.Policy.{GenericState}
use google_cloud_cpp_spanner.Retry.Examples.{
  error_count, error_count-IsLimited, doubling, polling, polling-IsLimited, polling-keeps, running,
  finishing, rpc_status,
}
use google_cloud_cpp_spanner.Time.Counts.{Timestamp}
use google_cloud_cpp_spanner.Names.{Database, database_name}
use google_cloud_cpp_spanner.Admin.Service.{AdminService}
use google_cloud_cpp_spanner.Admin.Requests.{DatabaseRequest, IamPolicy}
use google_cloud_cpp_spanner.Admin.Database.{set_iam_policy}
use google_cloud_cpp_spanner.Admin.Awaiting.{HasBudgets, IsSent, set_iam_policy-IsSent}

-- A stub whose first attempt is refused.
abbrev second_time : {A : Type 0} → A → ℕ → StatusOr A
second_time a zero = error (status StatusCode.unavailable "try again")
second_time a (suc k) = value a

abbrev admin : AdminService DatabaseRequest ℕ ℕ ℕ ℕ ℕ (GenericState ℕ ℕ)
admin = record {
  call = λ r. second_time 3;
  start = λ r k. value running;
  get_operation = λ n. finishing;
  unpack = λ a. some a;
  make_status = rpc_status;
  print = λ s. s.message;
  retry_policy = error_count;
  retry_policy_prototype = 2;
  backoff_policy = doubling;
  backoff_policy_prototype = 10;
  polling_policy = polling;
  polling_policy_prototype = record { retry_policy = 5; backoff_policy = 1 };
  retry_budget = λ n. n;
  polling_budget = λ p. p.retry_policy;
}

admin-HasBudgets : HasBudgets admin
admin-HasBudgets = record {
  retries = error_count-IsLimited;
  polls = polling-IsLimited;
  waits = polling-keeps;
}

abbrev database : Database
database = record { instance = record { project_id = "p"; instance_id = "i" }; database_id = "d" }

abbrev statements : List String
statements = "CREATE TABLE t" ∷ []

abbrev expiry : Timestamp
expiry = record { sec = pos 5; nsec = pos 0 }

abbrev tagged_policy : IamPolicy
tagged_policy = record { etag = "v1"; bindings = [] }

set_iam_policy-IsSent_example :
    (r : Report ℕ) × (set_iam_policy admin database tagged_policy ≡ some r)
    × IsSent
        (admin.call (DatabaseRequest.set_iam_policy (database_name database) tagged_policy))
        1
        3
        (not (tagged_policy.etag == ""))
        r
set_iam_policy-IsSent_example =
    set_iam_policy-IsSent admin admin-HasBudgets database tagged_policy 1 3
      (refl, status StatusCode.unavailable "try again", 1, refl, refl, refl) refl
