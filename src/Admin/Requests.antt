-- ===== src/Admin/Requests.antt =====
-- The requests of the admin connections to their stubs, as database_admin_connection.cc and
-- instance_admin_connection.cc fill them in.
use Prim.Native.String.{String}
use google_cloud_cpp_spanner.Prelude.{List}
use google_cloud_cpp_spanner.Time.Counts.{Timestamp}

-- `google::iam::v1::Policy`: its etag, and the rest.
pub record IamPolicy : Type 0 where
  pub etag : String
  pub bindings : List (String × List String)

-- The requests to the stub, as the connection fills them in.
pub data DatabaseRequest : Type 0 where
  create_database : (parent create_statement : String) → List String → DatabaseRequest
  get_database get_database_ddl drop_database : String → DatabaseRequest
  update_database : String → List String → DatabaseRequest
  list_databases : (parent page_token : String) → DatabaseRequest
  restore_database : (parent database_id backup : String) → DatabaseRequest
  get_iam_policy : String → DatabaseRequest
  set_iam_policy : String → IamPolicy → DatabaseRequest
  test_iam_permissions : String → List String → DatabaseRequest
  create_backup : (parent backup_id database : String) → Timestamp → DatabaseRequest
  get_backup delete_backup update_backup : String → DatabaseRequest
  list_backups list_backup_operations list_database_operations :
      (parent filter page_token : String) → DatabaseRequest

-- The requests to the stub. The one that creates or updates an instance is the caller's, here the
-- name of the instance.
pub data InstanceRequest : Type 0 where
  get_instance create_instance update_instance delete_instance get_instance_config :
      String → InstanceRequest
  list_instance_configs : (parent page_token : String) → InstanceRequest
  list_instances : (parent filter page_token : String) → InstanceRequest
  get_iam_policy : String → InstanceRequest
  set_iam_policy : String → IamPolicy → InstanceRequest
  test_iam_permissions : String → List String → InstanceRequest
