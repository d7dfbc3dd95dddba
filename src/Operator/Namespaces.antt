-- ===== src/Operator/Namespaces.antt =====
-- main.go: the namespaces that the manager watches, and the operator's own.
pub mod Joined
use zookeeper_operator.Prelude.{
  String, ◌&◌, str_eq, Option, none, some, List, [], map, if◌then◌else◌,
}
use zookeeper_operator.Std.Strings.{trim_space}
use zookeeper_operator.Std.Strings.Split.{split}
use zookeeper_operator.Controller.Interfaces.{Error, not_found, failure, Result, ok, err}

-- os.LookupEnv of WATCH_NAMESPACE; the text that is returned beside an error is empty
unfoldable pub get_watch_namespace : Option String → String × Option Error
get_watch_namespace none = ("", some (failure "WATCH_NAMESPACE must be set"))
get_watch_namespace (some ns) = (ns, none)

-- managerNamespaces; with no namespace the manager watches all of them
unfoldable pub manager_namespaces : String → List String
manager_namespaces namespaces =
    if str_eq namespaces "" then [] else map trim_space (split b',' namespaces)

-- from what is read of the file that the service account mounts
unfoldable pub get_operator_namespace : Result String → Result String
get_operator_namespace (err (not_found t)) = err (failure "file does not exist")
get_operator_namespace (err e) = err e
get_operator_namespace (ok ns_bytes) = ok (trim_space ns_bytes)
