-- ===== src/Witnesses/Settings.antt =====
-- The theorem on configurations, on a user's file that extends that of the workspace.
use taskrunner.Prelude.{
  refl, if◌then◌else◌, true, Option, none, some, [], ◌∷◌, ◌++◌, Text, text_eq, bytes, arith,
}
use taskrunner.Config.{ConfigFile, Content, Os, read_config, read_config_file}
use taskrunner.Config.Chain.{Chain, base, extending, Describes, read_config_lem}

abbrev contents : Text → Option Content
contents path =
    if text_eq path (bytes "/user")
    then some (record {
      extends = some (bytes "work");
      path = none;
      desired_tasks = some (bytes "lint" ∷ []);
    })
    else if text_eq path (bytes "/work")
    then some (record {
      extends = none;
      path = some (bytes "src");
      desired_tasks = some (bytes "build" ∷ []);
    })
    else none

abbrev os : Os
os = record {
  abs = λ path. some path;
  eval_symlinks = λ path. some path;
  dir = λ path. bytes "/";
  join = λ dir path. dir ++ path;
  read_file = contents;
  exists = λ path. true;
}

abbrev workspace : ConfigFile
workspace = record {
  config_path = bytes "/work";
  extends = none;
  path = some (bytes "src");
  desired_tasks = some (bytes "build" ∷ []);
}

abbrev user : ConfigFile
user = record {
  config_path = bytes "/user";
  extends = some (bytes "work");
  path = none;
  desired_tasks = some (bytes "lint" ∷ []);
}

chain : Chain os (bytes "/user") (user ∷ workspace ∷ [])
unfolding read_config_file text_eq
chain = extending refl refl refl (base refl refl)

read_config_lem_example :
    Describes os (user ∷ workspace ∷ []) (read_config os (λ l. l) 2 (bytes "/user"))
read_config_lem_example =
    read_config_lem os (λ l. l) (λ l t. (λ i. i, λ i. i)) 2 (bytes "/user") (user ∷ workspace ∷ [])
      chain (omega arith)
