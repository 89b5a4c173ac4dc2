-- ===== src/Admin/Database.antt =====
-- `DatabaseAdminConnectionImpl` of database_admin_connection.cc.
use Prim.Native.String.{String, ◌++◌}
use text.Mathlib.Text.{◌==◌}
use google_cloud_cpp_spanner.Prelude.{List, Bool, true, false, not, Option, ◌⊎◌, inl, inr}
use google_cloud_cpp_spanner.Status.{StatusOr, value, error}
use google_cloud_cpp_spanner.Retry.Loop.{Report}
use google_cloud_cpp_spanner.Time.Counts.{Timestamp}
use google_cloud_cpp_spanner.Names.{Instance, Database, instance_name, database_name}
use google_cloud_cpp_spanner.Admin.Service.{
  AdminService, Awaited, called, await_response, await_metadata, long_running,
}
use google_cloud_cpp_spanner.Admin.Requests.{DatabaseRequest, IamPolicy}

module _ {M E Any P B Q : Type 0} (admin : AdminService DatabaseRequest M E Any P B Q) where
  abbrev pub Future : Type 0
  Future = Option (Awaited M E Any)

  unfoldable pub unary : Bool → DatabaseRequest → String → Option (Report M)
  unfolding called
  unary is_idempotent request location = called admin is_idempotent (admin.call request) location

  unfoldable pub create_database : Database → List String → Future
  unfolding long_running await_response instance_name
  create_database database extra_statements =
      long_running admin false (await_response admin "AwaitDatabase")
        (DatabaseRequest.create_database (instance_name database.instance)
          ("CREATE DATABASE `" ++ database.database_id ++ "`") extra_statements)
        "CreateDatabase"

  unfoldable pub get_database : Database → Option (Report M)
  unfolding unary database_name
  get_database database =
      unary true (DatabaseRequest.get_database (database_name database)) "GetDatabase"

  unfoldable pub get_database_ddl : Database → Option (Report M)
  unfolding unary database_name
  get_database_ddl database =
      unary true (DatabaseRequest.get_database_ddl (database_name database)) "GetDatabaseDdl"

  unfoldable pub update_database : Database → List String → Future
  unfolding long_running await_metadata database_name
  update_database database statements =
      long_running admin false (await_metadata admin "AwaitUpdateDatabase")
        (DatabaseRequest.update_database (database_name database) statements) "UpdateDatabase"

  unfoldable pub drop_database : Database → Option (Report M)
  unfolding unary database_name
  drop_database database =
      unary true (DatabaseRequest.drop_database (database_name database)) "DropDatabase"

  -- The loader of a page, for `ListDatabases`; the range that calls it is another library's.
  unfoldable pub list_databases : Instance → String → Option (Report M)
  unfolding unary instance_name
  list_databases instance page_token =
      unary true (DatabaseRequest.list_databases (instance_name instance) page_token)
        "ListDatabases"

  unfoldable pub restore_database : Database → String → Future
  unfolding long_running await_response instance_name
  restore_database database backup_full_name =
      long_running admin false (await_response admin "AwaitDatabase")
        (DatabaseRequest.restore_database (instance_name database.instance) database.database_id
          backup_full_name)
        "RestoreDatabase"

  unfoldable pub get_iam_policy : Database → Option (Report M)
  unfolding unary database_name
  get_iam_policy database =
      unary true (DatabaseRequest.get_iam_policy (database_name database)) "GetIamPolicy"

  -- Without an etag a second attempt could undo another's change.
  unfoldable pub set_iam_policy : Database → IamPolicy → Option (Report M)
  unfolding unary database_name
  set_iam_policy database policy =
      let is_idempotent = not (policy.etag == "") in
      unary is_idempotent (DatabaseRequest.set_iam_policy (database_name database) policy)
        "SetIamPolicy"

  unfoldable pub test_iam_permissions : Database → List String → Option (Report M)
  unfolding unary database_name
  test_iam_permissions database permissions =
      unary true (DatabaseRequest.test_iam_permissions (database_name database) permissions)
        "TestIamPermissions"

  -- `CreateBackup`; a time that cannot be converted is an error before any call.
  unfoldable pub create_backup : Database → String → StatusOr Timestamp → StatusOr M ⊎ Future
  unfolding long_running await_response instance_name database_name
  create_backup database backup_id (error s) = inl (error s)
  create_backup database backup_id (value expire_time) = inr (
      long_running admin false (await_response admin "AwaitCreateBackup")
        (DatabaseRequest.create_backup (instance_name database.instance) backup_id
          (database_name database) expire_time)
        "CreateBackup")

  unfoldable pub get_backup : String → Option (Report M)
  unfolding unary
  get_backup backup_full_name = unary true (DatabaseRequest.get_backup backup_full_name) "GetBackup"

  unfoldable pub delete_backup : String → Option (Report M)
  unfolding unary
  delete_backup backup_full_name =
      unary true (DatabaseRequest.delete_backup backup_full_name) "DeleteBackup"

  unfoldable pub update_backup : String → Option (Report M)
  unfolding unary
  update_backup request = unary true (DatabaseRequest.update_backup request) "UpdateBackup"

  unfoldable pub list_backups : Instance → String → String → Option (Report M)
  unfolding unary instance_name
  list_backups instance filter page_token =
      unary true (DatabaseRequest.list_backups (instance_name instance) filter page_token)
        "ListBackups"

  unfoldable pub list_backup_operations : Instance → String → String → Option (Report M)
  unfolding unary instance_name
  list_backup_operations instance filter page_token =
      unary true (DatabaseRequest.list_backup_operations (instance_name instance) filter page_token)
        "ListBackupOperations"

  unfoldable pub list_database_operations : Instance → String → String → Option (Report M)
  unfolding unary instance_name
  list_database_operations instance filter page_token =
      unary true
        (DatabaseRequest.list_database_operations (instance_name instance) filter page_token)
        "ListDatabaseOperations"
