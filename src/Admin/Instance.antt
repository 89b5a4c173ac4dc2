-- ===== src/Admin/Instance.antt =====
-- `InstanceAdminConnectionImpl` of instance_admin_connection.cc.
use Prim.Native.String.{String, ◌++◌}
use text.Mathlib.Text.{◌==◌}
use google_cloud_cpp_spanner.Prelude.{List, Bool, true, false, not, Option}
use google_cloud_cpp_spanner.Retry.Loop.{Report}
use google_cloud_cpp_spanner.Admin.Service.{
  AdminService, Awaited, called, await_response, long_running,
}
use google_cloud_cpp_spanner.Admin.Requests.{InstanceRequest, IamPolicy}

module _ {M E Any P B Q : Type 0} (admin : AdminService InstanceRequest M E Any P B Q) where
  unfoldable pub unary : Bool → InstanceRequest → String → Option (Report M)
  unfolding called
  unary is_idempotent request location = called admin is_idempotent (admin.call request) location

  unfoldable pub get_instance : String → Option (Report M)
  unfolding unary
  get_instance instance_name = unary true (InstanceRequest.get_instance instance_name) "GetInstance"

  unfoldable pub create_instance : String → Option (Awaited M E Any)
  unfolding long_running await_response
  create_instance request =
      long_running admin false (await_response admin "AwaitCreateOrUpdateInstance")
        (InstanceRequest.create_instance request) "CreateInstance"

  unfoldable pub update_instance : String → Option (Awaited M E Any)
  unfolding long_running await_response
  update_instance request =
      long_running admin true (await_response admin "AwaitCreateOrUpdateInstance")
        (InstanceRequest.update_instance request) "UpdateInstance"

  unfoldable pub delete_instance : String → Option (Report M)
  unfolding unary
  delete_instance instance_name =
      unary true (InstanceRequest.delete_instance instance_name) "DeleteInstance"

  unfoldable pub get_instance_config : String → Option (Report M)
  unfolding unary
  get_instance_config config_name =
      unary true (InstanceRequest.get_instance_config config_name) "GetInstanceConfig"

  -- The loaders of a page.
  unfoldable pub list_instance_configs : String → String → Option (Report M)
  unfolding unary
  list_instance_configs project_id page_token =
      unary true (InstanceRequest.list_instance_configs ("projects/" ++ project_id) page_token)
        "ListInstanceConfigs"

  unfoldable pub list_instances : String → String → String → Option (Report M)
  unfolding unary
  list_instances project_id filter page_token =
      unary true (InstanceRequest.list_instances ("projects/" ++ project_id) filter page_token)
        "ListInstances"

  unfoldable pub get_iam_policy : String → Option (Report M)
  unfolding unary
  get_iam_policy instance_name =
      unary true (InstanceRequest.get_iam_policy instance_name) "GetIamPolicy"

  unfoldable pub set_iam_policy : String → IamPolicy → Option (Report M)
  unfolding unary
  set_iam_policy instance_name policy =
      let is_idempotent = not (policy.etag == "") in
      unary is_idempotent (InstanceRequest.set_iam_policy instance_name policy) "SetIamPolicy"

  unfoldable pub test_iam_permissions : String → List String → Option (Report M)
  unfolding unary
  test_iam_permissions instance_name permissions =
      unary true (InstanceRequest.test_iam_permissions instance_name permissions)
        "TestIamPermissions"
