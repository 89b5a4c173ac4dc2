-- ===== src/Names.antt =====
-- The names of resources: google/cloud/spanner/instance.cc, database.cc and backup.cc.
use Prim.Native.String.{String, ◌++◌}

pub record Instance : Type 0 where
  pub project_id : String
  pub instance_id : String

pub record Database : Type 0 where
  pub instance : Instance
  pub database_id : String

-- `FullName`.
unfoldable pub instance_name : Instance → String
instance_name i = "projects/" ++ i.project_id ++ "/instances/" ++ i.instance_id

unfoldable pub database_name : Database → String
unfolding instance_name
database_name d = instance_name d.instance ++ "/databases/" ++ d.database_id
